-- ===== src/Gasometer/Consts.antt =====
-- gasometer/src/consts.rs: the prices that no configuration changes.
use sputnikvm.Base.{ℕ}
use sputnikvm.Base.Int.{ℤ, pos}

abbrev pub g_zero : ℕ
g_zero = 0

abbrev pub g_base : ℕ
g_base = 2

abbrev pub g_verylow : ℕ
g_verylow = 3

abbrev pub g_low : ℕ
g_low = 5

abbrev pub g_mid : ℕ
g_mid = 8

abbrev pub g_high : ℕ
g_high = 10

abbrev pub g_jumpdest : ℕ
g_jumpdest = 1

abbrev pub r_suicide : ℤ
r_suicide = pos 24000

abbrev pub g_create : ℕ
g_create = 32000

abbrev pub g_callvalue : ℕ
g_callvalue = 9000

abbrev pub g_newaccount : ℕ
g_newaccount = 25000

abbrev pub g_exp : ℕ
g_exp = 10

abbrev pub g_memory : ℕ
g_memory = 3

abbrev pub g_log : ℕ
g_log = 375

abbrev pub g_logdata : ℕ
g_logdata = 8

abbrev pub g_logtopic : ℕ
g_logtopic = 375

abbrev pub g_sha3 : ℕ
g_sha3 = 30

abbrev pub g_sha3word : ℕ
g_sha3word = 6

abbrev pub g_copy : ℕ
g_copy = 3

abbrev pub g_blockhash : ℕ
g_blockhash = 20

abbrev pub g_codedeposit : ℕ
g_codedeposit = 200
