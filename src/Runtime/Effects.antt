-- ===== src/Runtime/Effects.antt =====
-- runtime/src/eval/system.rs: the system opcodes that change what is outside the machine.
pub mod From
use sputnikvm.Base.{
  ℕ, zero, suc, Bool, true, false, List, [], ◌∷◌, Option, none, some, ok, err, min, length, ltb,
  ◌==◌, if◌then◌else◌,
}
use sputnikvm.Base.Result.{Result}
use sputnikvm.PrimitiveTypes.{U256Ops, H160, H256, usize_max, zero_h256}
use sputnikvm.Core.Error as Error
use sputnikvm.Core.Error.{Capture, ExitReason, suicided}
use sputnikvm.Core.Memory as Memory
use sputnikvm.Core.Exec as Exec
use sputnikvm.Core.Exec.{Exec, pop_value, push_value, pop_u256, push_u256}
use sputnikvm.Runtime.Context as Context
use sputnikvm.Runtime.Context.{CreateScheme, CallScheme, Context, Transfer}
use sputnikvm.Runtime.Trait.{HandlerTrait, Created, Called}
use sputnikvm.Runtime.System.{resize, read_region}
use sputnikvm.Runtime.Act.{
  Runtime, Control, create_interrupt, call_interrupt, exit, Act, pure, stop, gets, on_machine, ask,
  on_handler, set_return_data, ◌>>=◌, ◌>>◌,
}

-- The loop that pops the topics of a log.
unfoldable pub pop_topics : ℕ → Exec (List H256)
pop_topics zero = Exec.pure []
pop_topics (suc n) =
    Exec.◌>>=◌ pop_value λ value. Exec.◌>>=◌ (pop_topics n) λ topics. Exec.pure (value ∷ topics)

module _ ⦃U : U256Ops⦄ where
  -- The memory grows to hold a region, whose bytes are read: the code of a creation, the data of a log.
  pub region : ℕ → ℕ → Exec (List ℕ)
  region offset len =
      Exec.◌>>=◌ (resize offset len) λ _. if len == 0 then Exec.pure [] else read_region offset len

  -- The memory grows to hold the input and the output of a call, and the input is read.
  pub input_region : ℕ → ℕ → ℕ → ℕ → Exec (List ℕ)
  input_region in_offset in_len out_offset out_len = Exec.◌>>=◌ (resize in_offset in_len) λ _.
      Exec.◌>>=◌ (resize out_offset out_len)
        λ _. if in_len == 0 then Exec.pure [] else read_region in_offset in_len

  -- `copy_large` of the returned data, and whether it succeeded.
  unfoldable pub copy_output : ℕ → ℕ → List ℕ → Exec Bool
  copy_output out_offset target_len bytes m =
      let (r, memory) = Memory.copy_large m.memory out_offset 0 target_len bytes in
      (ok (elim r [ ok _ ↦ true | err _ ↦ false ]), record m { memory = memory })

  unfoldable pub gas_argument : ℕ → Option ℕ
  gas_argument gas = if ltb usize_max gas then none else some (U.as_u64 gas)

  -- The value of a call, which two of the schemes take from the stack.
  unfoldable pub call_value : CallScheme → Exec ℕ
  call_value Context.call = pop_u256
  call_value Context.call_code = pop_u256
  call_value Context.delegate_call = Exec.pure 0
  call_value Context.static_call = Exec.pure 0

  unfoldable pub call_context : CallScheme → Context → H256 → ℕ → Context
  call_context Context.call c to value = record {
    address = U.h160_from_h256 to;
    caller = c.address;
    apparent_value = value;
  }
  call_context Context.static_call c to value = record {
    address = U.h160_from_h256 to;
    caller = c.address;
    apparent_value = value;
  }
  call_context Context.call_code c to value = record {
    address = c.address;
    caller = c.address;
    apparent_value = value;
  }
  call_context Context.delegate_call c to value = c

  unfoldable pub call_transfer : CallScheme → Context → H256 → ℕ → Option Transfer
  call_transfer Context.call c to value =
      some record { source = c.address; target = U.h160_from_h256 to; value = value }
  call_transfer Context.call_code c to value =
      some record { source = c.address; target = c.address; value = value }
  call_transfer Context.delegate_call c to value = none
  call_transfer Context.static_call c to value = none

  abbrev pub is_static_call : CallScheme → Bool
  is_static_call Context.static_call = true
  is_static_call _ = false

  -- The address of a creation as a word, zero where there is none.
  unfoldable pub created_word : Option H160 → H256
  created_word none = zero_h256
  created_word (some a) = U.h256_from_h160 a

module _ {H CreateInterrupt CallInterrupt : Type 0}
    (T : HandlerTrait H CreateInterrupt CallInterrupt) ⦃U : U256Ops⦄ where
  abbrev pub Code : Type 0
  Code = Act H CreateInterrupt CallInterrupt (Unit {0})

  pub sstore : Code
  sstore = do
    index ← on_machine pop_value
    value ← on_machine pop_value
    context ← gets (λ r. r.context)
    on_handler (λ h. T.set_storage h context.address index value)

  pub log : ℕ → Code
  log n = do
    offset ← on_machine pop_u256
    len ← on_machine pop_u256
    bytes ← on_machine (region offset len)
    topics ← on_machine (pop_topics n)
    context ← gets (λ r. r.context)
    on_handler (λ h. T.log h context.address topics bytes)

  pub suicide : Code
  suicide = do
    target ← on_machine pop_value
    context ← gets (λ r. r.context)
    on_handler (λ h. T.mark_delete h context.address (U.h160_from_h256 target))
    stop (exit (Error.succeed suicided))

  -- The two schemes of a creation, the second with the salt from the stack and the hash of the code.
  scheme_of : (List ℕ → H256) → Bool → H160 → List ℕ → Exec CreateScheme
  scheme_of keccak256 false caller code = Exec.pure (Context.legacy caller)
  scheme_of keccak256 true caller code =
      Exec.◌>>=◌ pop_value λ salt. Exec.pure (Context.create2 caller (keccak256 code) salt)

  -- What follows a creation, by its reason.
  end_create : H256 → ExitReason → Code
  end_create address (Error.succeed s) = on_machine (push_value address)
  end_create address (Error.revert r) = on_machine (push_value zero_h256)
  end_create address (Error.error e) = on_machine (push_value zero_h256)
  end_create address (Error.fatal e) = do
    on_machine (push_value zero_h256)
    stop (exit (Error.fatal e))

  after_create : Capture Created CreateInterrupt → Code
  unfolding end_create
  after_create (Error.exit (reason, address, return_data)) = do
    set_return_data return_data
    end_create (created_word address) reason
  after_create (Error.trap interrupt) = do
    on_machine (push_value zero_h256)
    stop (create_interrupt interrupt)

  pub create : (List ℕ → H256) → Bool → Code
  unfolding scheme_of after_create
  create keccak256 is_create2 = do
    set_return_data []
    value ← on_machine pop_u256
    code_offset ← on_machine pop_u256
    len ← on_machine pop_u256
    code ← on_machine (region code_offset len)
    context ← gets (λ r. r.context)
    scheme ← on_machine (scheme_of keccak256 is_create2 context.address code)
    captured ← ask (λ h. T.create h context.address scheme value code none)
    after_create captured

  -- What follows a call, by its reason.
  end_call : ℕ → ℕ → List ℕ → ExitReason → Code
  end_call out_offset target_len return_data (Error.succeed s) = do
    copied ← on_machine (copy_output out_offset target_len return_data)
    on_machine (push_u256 (if copied then 1 else 0))
  end_call out_offset target_len return_data (Error.revert r) = do
    on_machine (push_u256 0)
    on_machine (copy_output out_offset target_len return_data)
    pure tt
  end_call out_offset target_len return_data (Error.error e) = on_machine (push_u256 0)
  end_call out_offset target_len return_data (Error.fatal e) = do
    on_machine (push_u256 0)
    stop (exit (Error.fatal e))

  after_call : ℕ → ℕ → Capture Called CallInterrupt → Code
  unfolding end_call
  after_call out_offset out_len (Error.exit (reason, return_data)) = do
    set_return_data return_data
    end_call out_offset (min out_len (length return_data)) return_data reason
  after_call out_offset out_len (Error.trap interrupt) = do
    on_machine (push_value zero_h256)
    stop (call_interrupt interrupt)

  pub call : CallScheme → Code
  unfolding after_call
  call scheme = do
    set_return_data []
    gas ← on_machine pop_u256
    to ← on_machine pop_value
    value ← on_machine (call_value scheme)
    in_offset ← on_machine pop_u256
    in_len ← on_machine pop_u256
    out_offset ← on_machine pop_u256
    out_len ← on_machine pop_u256
    input ← on_machine (input_region in_offset in_len out_offset out_len)
    context ← gets (λ r. r.context)
    captured ← ask λ h.
        T.call h (U.h160_from_h256 to) (call_transfer scheme context to value) input
          (gas_argument gas) (is_static_call scheme) (call_context scheme context to value)
    after_call out_offset out_len captured
