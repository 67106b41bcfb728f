-- ===== src/Ws/Codec/Flags.antt =====
-- The bit sets of http-ws/src/codec.rs as three independent marks.
use actix_server_alt.Prelude.{ℕ, zero, suc, ◌<◌, ◌≡◌, refl, Bool, true, false, arith}
use actix_server_alt.Ws.Codec.{
  server_flag, continuation_flag, w_continuation_flag, remove, insert, contains, new, client_mode,
}

-- The three marks of a set of flags.
pub record Marks : Type 0 where
  pub server : Bool
  pub continuation : Bool
  pub w_continuation : Bool

unfoldable pub marks : ℕ → Marks
unfolding contains
marks flags = record {
  server = contains flags server_flag;
  continuation = contains flags continuation_flag;
  w_continuation = contains flags w_continuation_flag;
}

-- Each operation that the codec makes changes its own mark and no other, and stays within the bits.
pub record FlagLaws (flags : ℕ) : Type 0 where
  pub insert_continuation :
      marks (insert flags continuation_flag) ≡ record (marks flags) { continuation = true }
  pub remove_continuation :
      marks (remove flags continuation_flag) ≡ record (marks flags) { continuation = false }
  pub insert_w_continuation :
      marks (insert flags w_continuation_flag) ≡ record (marks flags) { w_continuation = true }
  pub remove_w_continuation :
      marks (remove flags w_continuation_flag) ≡ record (marks flags) { w_continuation = false }
  pub remove_server : marks (remove flags server_flag) ≡ record (marks flags) { server = false }
  pub insert_fits : (insert flags continuation_flag < 8) × (insert flags w_continuation_flag < 8)
  pub remove_fits : (remove flags continuation_flag < 8) × (remove flags w_continuation_flag < 8)

-- Flags within three bits obey the laws: each operation changes its own mark and no other.
pub flag_laws : (flags : ℕ) → flags < 8 → FlagLaws flags
unfolding marks insert remove
flag_laws zero h = ground arith
flag_laws (suc zero) h = ground arith
flag_laws (suc (suc zero)) h = ground arith
flag_laws (suc (suc (suc zero))) h = ground arith
flag_laws (suc (suc (suc (suc zero)))) h = ground arith
flag_laws (suc (suc (suc (suc (suc zero))))) h = ground arith
flag_laws (suc (suc (suc (suc (suc (suc zero)))))) h = ground arith
flag_laws (suc (suc (suc (suc (suc (suc (suc zero))))))) h = ground arith
flag_laws (suc (suc (suc (suc (suc (suc (suc (suc n)))))))) h = absurd (omega arith)

-- A new codec is a server that is in the middle of no message; `client_mode` makes it a client.
pub new-marks :
    (marks new.flags ≡ record { server = true; continuation = false; w_continuation = false })
    × (marks (client_mode new).flags
        ≡ record { server = false; continuation = false; w_continuation = false })
unfolding marks new client_mode remove
new-marks = (refl, refl)
