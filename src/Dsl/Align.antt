-- ===== src/Dsl/Align.antt =====
-- include/dsl/align.h, for values and alignments of 64 bits.
pub mod Laws
use davix.Prelude.{ℕ, ◌+◌, ◌-◌, bit_and, if◌then◌else◌, ◌==◌}
use davix.Prelude.Words.{add64, not64}

-- `if (a) a--;`
unfoldable pub mask_of : ℕ → ℕ
mask_of a = if a == 0 then 0 else a - 1

unfoldable pub align_up : ℕ → ℕ → ℕ
unfolding mask_of
align_up value alignment = bit_and (add64 value (mask_of alignment)) (not64 (mask_of alignment))

unfoldable pub align_down : ℕ → ℕ → ℕ
unfolding mask_of
align_down value alignment = bit_and value (not64 (mask_of alignment))
