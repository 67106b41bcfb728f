-- ===== src/Util/KeepAlive/Deadline.antt =====
-- When the timer of actix-http-alt/src/util/keep_alive.rs ends.
use actix_server_alt.Prelude.{
  ℕ, ◌≤◌, ◌<◌, ◌≡◌, refl, ◌↔◌, ◌⊎◌, inl, inr, Bool, true, false, leb, Bool-cases, Option, some,
  List, ◌∷◌, arith, Poll, ready, pending,
}
use actix_server_alt.Util.KeepAlive.{KeepAlive, update, reset, is_expired, poll}

-- The timer is set to an instant that is not behind the deadline, so that it is not missed.
pub record IsAhead (k : KeepAlive) : Type 0 where
  pub ahead : k.timer ≤ k.deadline

-- The state and the answer of a poll that begins at `now` and ends at `later`.
pub record Expires (now later deadline : ℕ) (answer : KeepAlive × Option (Poll (Unit {0})))
    : Type 0 where
  pub kept : answer.0.deadline ≡ deadline
  pub valid : IsAhead answer.0
  pub answered :
      (answer.1 ≡ some (ready tt)) × (deadline ≤ later)
      ⊎ (answer.1 ≡ some pending) × (now < deadline) × (now < answer.0.timer)

leb_refl : (n : ℕ) → leb n n ≡ true
leb_refl n = ground arith

module _ (elapsed : ℕ → ℕ → Bool)
    (elapsed_iff : (now deadline : ℕ) → (elapsed now deadline ≡ true) ↔ (deadline ≤ now)) where
  not_elapsed : (now deadline : ℕ) → elapsed now deadline ≡ false → now < deadline
  not_elapsed now deadline q = let back = (elapsed_iff now deadline).1 in ground arith

  -- The timer once it is set to the deadline.
  poll-reset :
      (now later : ℕ) (more : List ℕ) (k : KeepAlive)
      → now ≤ later
      → Expires now later k.deadline (poll elapsed (later ∷ more) (reset k))
  unfolding poll reset is_expired
  poll-reset now later more k h = elim (Bool-cases (elapsed later k.deadline)) [
    | inl e ↦
        rw (e, leb_refl k.deadline)
          record {
            kept = refl;
            valid = record { ahead = omega arith };
            answered = inl (refl, (elapsed_iff later k.deadline).0 e);
          }
    | inr e ↦
        let early = not_elapsed later k.deadline e in
        rw e record {
          kept = refl;
          valid = record { ahead = omega arith };
          answered = inr (refl, omega arith, omega arith);
        }
  ]

  -- A poll of a timer whose deadline was moved on, and which is set to no later instant, returns, after
  -- two polls of the runtime's timer at most: it ends only when the deadline has passed; else the
  -- deadline is still ahead, and the runtime's timer is set ahead, to no later than the deadline.
  pub poll-Expires :
      (now later : ℕ) (more : List ℕ) (deadline : ℕ) (k : KeepAlive)
      → now ≤ later
      → IsAhead (update deadline k)
      → Expires now later deadline (poll elapsed (now ∷ later ∷ more) (update deadline k))
  unfolding poll is_expired update
  poll-Expires now later more deadline k h v = elim (Bool-cases (elapsed now k.timer)) [
    | inl e ↦
        let reached = (elapsed_iff now k.timer).0 e in
        elim (Bool-cases (leb deadline k.timer)) [
          | inl x ↦ rw (e, x) record { kept = refl; valid = v; answered = inl (refl, ground arith) }
          | inr x ↦ rw (e, x) (poll-reset now later more (update deadline k) h)
        ]
    | inr e ↦
        let early = not_elapsed now k.timer e in
        rw e record { kept = refl; valid = v; answered = inr (refl, omega (arith, v.ahead), early) }
  ]
