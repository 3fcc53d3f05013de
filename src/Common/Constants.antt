-- ===== src/Common/Constants.antt =====
-- backend/common/src/constants.rs
use ktty.Base.{ℕ, ◌*◌, Text, lit}

abbrev pub static_salt : Text
static_salt = lit "KTTY STATIC SALT VERSION 1"

abbrev pub argon2_m_cost : ℕ
argon2_m_cost = 65536

abbrev pub argon2_t_cost : ℕ
argon2_t_cost = 3

abbrev pub argon2_p_cost : ℕ
argon2_p_cost = 4

abbrev pub argon2_output_len : ℕ
argon2_output_len = 32

abbrev pub ring_buffer_size : ℕ
ring_buffer_size = 2 * 1024 * 1024

abbrev pub nonce_len : ℕ
nonce_len = 24

abbrev pub mac_len : ℕ
mac_len = 16
