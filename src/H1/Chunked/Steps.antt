-- ===== src/H1/Chunked/Steps.antt =====
-- `ChunkedState::step` outside a chunk's body takes one byte and does not look further
-- (actix-http-alt/src/h1/proto/codec.rs).
use actix_server_alt.Prelude.{
  ℕ, ◌<◌, ◌≡◌, ◌≢◌, refl, Bool, true, false, ◌&&◌, ◌||◌, List, [], ◌∷◌, arith, ltb, ◌==◌,
  if◌then◌else◌,
}
use actix_server_alt.H1.Chunked.{
  ChunkedState, size_lws, extension, size_lf, body, body_cr, body_lf, end_cr, end_lf, end, IoError,
  Stepped, go, fail, between, step,
}

-- Inside a chunk there is something left of it.
abbrev pub IsNext : ChunkedState → ℕ → Type 0
IsNext body n = 0 < n
IsNext _ n = Unit {0}

-- The step `s` over one byte and the bytes `rest`, and the step `s'` over that byte alone.
pub data Single (n : ℕ) (rest : List ℕ) (s s' : Stepped) : Type 0 where
  goes :
      (state : ChunkedState) (m : ℕ)
      → IsNext state m
      → s ≡ go rest m state
      → s' ≡ go [] m state
      → Single n rest s s'
  fails : (e : IoError) → s ≡ fail rest n e → s' ≡ fail [] n e → Single n rest s s'

split_test :
    {n : ℕ} {rest : List ℕ} {s s' t t' : Stepped} (test : Bool)
    → (test ≡ true → Single n rest s s')
    → Single n rest t t'
    → Single n rest (if test then s else t) (if test then s' else t')
split_test true hit miss = hit refl
split_test false hit miss = miss

module _ (n b : ℕ) (rest : List ℕ) where
  expect-Single :
      (byte : ℕ) (next : ChunkedState) (e : IoError)
      → IsNext next n
      → Single n rest
          (if b == byte then go rest n next else fail rest n e)
          (if b == byte then go [] n next else fail [] n e)
  expect-Single byte next e h =
      split_test (b == byte) (λ hit. goes next n h refl refl) (fails e refl refl)

  pub step-Single :
      (state : ChunkedState)
      → state ≢ body
      → state ≢ end
      → Single n rest (step state (b ∷ rest) n) (step state (b ∷ []) n)
  unfolding step
  step-Single ChunkedState.size p q =
      split_test (between b'0' b'9' b) (λ h. goes ChunkedState.size _ tt refl refl)
        (split_test (between b'a' b'f' b) (λ h. goes ChunkedState.size _ tt refl refl)
          (split_test (between b'A' b'F' b) (λ h. goes ChunkedState.size _ tt refl refl)
            (split_test (b == 9 || b == 32) (λ h. goes size_lws n tt refl refl)
              (split_test (b == b';') (λ h. goes extension n tt refl refl)
                (split_test (b == 13) (λ h. goes size_lf n tt refl refl) (fails _ refl refl))))))
  step-Single size_lws p q =
      split_test (b == 9 || b == 32) (λ h. goes size_lws n tt refl refl)
        (split_test (b == b';') (λ h. goes extension n tt refl refl)
          (split_test (b == 13) (λ h. goes size_lf n tt refl refl) (fails _ refl refl)))
  step-Single extension p q =
      split_test (b == 13) (λ h. goes size_lf n tt refl refl) (goes extension n tt refl refl)
  step-Single size_lf p q =
      split_test (b == 10 && ltb 0 n) (λ h. goes body n (ground arith) refl refl)
        (split_test (b == 10 && n == 0) (λ h. goes end_cr n tt refl refl) (fails _ refl refl))
  step-Single body p q = absurd (p refl)
  step-Single body_cr p q = expect-Single 13 body_lf _ tt
  step-Single body_lf p q = expect-Single 10 ChunkedState.size _ tt
  step-Single end_cr p q = expect-Single 13 end_lf _ tt
  step-Single end_lf p q = expect-Single 10 end _ tt
  step-Single end p q = absurd (q refl)
