-- ===== src/H1/Body/Queue.antt =====
-- The queue of actix-http-alt/src/h1/body.rs: its counters, the order of its bytes, and the dispatcher
-- that waits while it is full.
use actix_server_alt.Prelude.{
  ℕ, zero, suc, ◌+◌, ◌≤◌, ◌<◌, ◌≡◌, refl, ap, sym, ◌∙◌, true, false, Bool-cases, Option, none, some,
  List, [], ◌∷◌, ◌++◌, append-nil, append_assoc, map, length, ltb, Result, ok, Poll, ready, pending,
  arith, inl, inr,
}
use actix_server_alt.H1.Body.{
  max_buffer_size, Inner, new, register, register_io, set_error, feed_eof, feed_data, Taken, pop,
  read_empty, read_items, readany, poll_ready,
}

abbrev pub total : List (List ℕ) → ℕ
total [] = 0
total (bytes ∷ items) = length bytes + total items

total-append : (xs ys : List (List ℕ)) → total (xs ++ ys) ≡ total xs + total ys
total-append [] ys = omega arith
total-append (x ∷ xs) ys = omega (arith, total-append xs ys)

-- The length is that of the bytes held, and the dispatcher may read on exactly below the limit.
pub record IsValid (b : Inner) : Type 0 where
  pub counted : b.len ≡ total b.items
  pub wanted : b.need_read ≡ ltb b.len max_buffer_size

read_empty-IsValid :
    (waker : ℕ) (b : Inner) (e : Option ℕ)
    → IsValid b
    → b.len ≡ 0
    → IsValid (read_empty waker b e).body
unfolding read_empty register
read_empty-IsValid waker b (some e) v h = record { counted = v.counted; wanted = v.wanted }
read_empty-IsValid waker b none v h = elim (Bool-cases b.eof) [
  | inl over ↦ rw over (record { counted = v.counted; wanted = v.wanted })
  | inr more ↦ rw more (record { counted = v.counted; wanted = ground arith })
]

read_items-IsValid :
    (waker : ℕ) (b : Inner) (items : List (List ℕ))
    → b.items ≡ items
    → IsValid b
    → IsValid (read_items waker b items).body
unfolding read_items pop
read_items-IsValid waker b (bytes ∷ items) e v = record {
  counted = omega (arith, v.counted, ap total e);
  wanted = refl;
}
read_items-IsValid waker b [] e v = read_empty-IsValid waker b b.err v (v.counted ∙ ap total e)

-- A new body is valid, and every call of either side keeps it so.
pub readany-IsValid :
    (b : Inner) (waker : ℕ) (bytes : List ℕ)
    → IsValid b
    → IsValid (new b.eof)
      × IsValid (register_io waker b)
      × IsValid (set_error waker b)
      × IsValid (feed_eof b)
      × IsValid (feed_data bytes b).0
      × IsValid (readany waker b).body
unfolding new register_io set_error feed_eof feed_data readany
readany-IsValid b waker bytes v = (
  record { counted = refl; wanted = refl },
  record { counted = v.counted; wanted = v.wanted },
  record { counted = v.counted; wanted = v.wanted },
  record { counted = v.counted; wanted = v.wanted },
  record { counted = omega (arith, v.counted, total-append b.items (bytes ∷ [])); wanted = refl },
  read_items-IsValid waker b b.items refl v,
)

-- The dispatcher feeds the messages one after the other.
pub feed_all : List (List ℕ) → Inner → Inner
feed_all [] b = b
feed_all (bytes ∷ messages) b = feed_all messages (feed_data bytes b).0

-- The answers of `n` reads, one after the other.
pub answers : ℕ → ℕ → Inner → List (Poll (Option (Result ℕ (List ℕ))))
answers zero waker b = []
answers (suc n) waker b = (readany waker b).answer ∷ answers n waker (readany waker b).body

feed_all-items :
    (messages : List (List ℕ)) (b : Inner)
    → ((feed_all messages b).items ≡ b.items ++ messages)
      × ((feed_all messages b).err ≡ b.err)
      × ((feed_all messages b).eof ≡ b.eof)
unfolding feed_all feed_data
feed_all-items [] b = (sym (append-nil b.items), refl, refl)
feed_all-items (bytes ∷ messages) b =
    let (items, e, over) = feed_all-items messages (feed_data bytes b).0 in
    (items ∙ append_assoc b.items (bytes ∷ []) messages, e, over)

abbrev pub item : List ℕ → Poll (Option (Result ℕ (List ℕ)))
item bytes = ready (some (ok bytes))

read_end :
    (waker : ℕ) (b : Inner)
    → b.items ≡ []
    → b.err ≡ none
    → b.eof ≡ true
    → readany waker b ≡ record { body = b; woken = none; answer = ready none }
unfolding readany read_items read_empty
read_end waker b q e over =
    ap (read_items waker b) q ∙ ap (read_empty waker b) e ∙ unfold read_empty in (rw over)

read_next :
    (waker : ℕ) (b : Inner) (bytes : List ℕ) (items : List (List ℕ))
    → b.items ≡ bytes ∷ items
    → readany waker b ≡ pop waker bytes items b
unfolding readany read_items
read_next waker b bytes items q = ap (read_items waker b) q

answers-items :
    (items : List (List ℕ)) (waker : ℕ) (b : Inner)
    → b.items ≡ items
    → b.err ≡ none
    → b.eof ≡ true
    → answers (suc (length items)) waker b ≡ map item items ++ ready none ∷ []
unfolding answers pop
answers-items [] waker b q e over = ap (λ (r : Taken). r.answer ∷ []) (read_end waker b q e over)
answers-items (bytes ∷ items) waker b q e over =
    ap (λ (r : Taken). r.answer ∷ answers (suc (length items)) waker r.body)
      (read_next waker b bytes items q)
    ∙ ap (◌∷◌ (item bytes)) (answers-items items waker (pop waker bytes items b).body refl e over)

woken_reader :
    (reader waker : ℕ) (b : Inner) (items : List (List ℕ))
    → 0 < total items
    → (read_items reader (register_io waker b) items).woken ≡ some waker
unfolding read_items pop register_io
woken_reader reader waker b [] h = absurd (omega arith)
woken_reader reader waker b (bytes ∷ items) h = refl

-- What the dispatcher feeds, and then the end, the handler reads: the messages, once each and in
-- order, behind those that are there, and then the end of the stream.
pub answers-feed_all :
    (messages : List (List ℕ)) (b : Inner) (waker : ℕ)
    → b.err ≡ none
    → answers (suc (length (b.items ++ messages))) waker (feed_eof (feed_all messages b))
      ≡ map item (b.items ++ messages) ++ ready none ∷ []
unfolding feed_eof
answers-feed_all messages b waker e =
    let (items, e', over) = feed_all-items messages b in
    answers-items (b.items ++ messages) waker (feed_eof (feed_all messages b)) items (e' ∙ e) refl

-- The dispatcher has to wait exactly while the body holds the limit of bytes, and a dispatcher that
-- waits is woken by the next read of the handler.
pub poll_ready-readany :
    (b : Inner) (waker reader : ℕ)
    → IsValid b
    → (total b.items < max_buffer_size → poll_ready waker (some b) ≡ (some b, ready (ok tt)))
      × (max_buffer_size ≤ total b.items
          → (poll_ready waker (some b) ≡ (some (register_io waker b), pending))
            × ((readany reader (register_io waker b)).woken ≡ some waker))
unfolding poll_ready readany
poll_ready-readany b waker reader v = (
  λ low. let wanted : b.need_read ≡ true = ground (arith, v.counted, v.wanted) in rw wanted,
  λ high.
      let blocked : b.need_read ≡ false = ground (arith, v.counted, v.wanted) in
      (rw blocked, unfold register_io in (woken_reader reader waker b b.items (omega arith))),
)
