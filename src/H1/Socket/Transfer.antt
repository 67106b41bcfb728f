-- ===== src/H1/Socket/Transfer.antt =====
-- What `try_read` and `try_write` of actix-http-alt/src/h1/proto/dispatcher.rs do to the bytes.
use mathlib.Core.List.{flatten}
use actix_server_alt.Prelude.{
  ℕ, zero, suc, ◌+◌, ◌≤◌, ◌<◌, ◌≡◌, refl, ap, sym, subst, ◌∙◌, Bool, true, false, ◌||◌, Bool-cases,
  Option, some, List, [], ◌∷◌, ◌++◌, append-nil, append_assoc, length, length-append, take, drop,
  take-append, take-append-drop, min, leb, ◌==◌, if◌then◌else◌, Result, ok, err, arith, inl, inr,
}
use actix_server_alt.Util.BufList.{BufList, vectored, chunks_vectored}
use actix_server_alt.Util.BufList.Bytes.{bytes_of, IsValid, advance-Holds}
use actix_server_alt.Util.BufList.Read.{vectored_front}
use actix_server_alt.H1.Buf.{ReadBuf, read_backpressure, set_advanced, EncodedBuf, bytes_ops}
use actix_server_alt.H1.Socket.{
  SocketError, closed, broken, Incoming, received, read_more, try_read, Outgoing, accepted,
  ListSent, take_bytes, write_list, write_flat,
}

-- The socket took a front part of the bytes, the rest is still in a valid list, and nothing is left
-- where the call says that it is finished.
pub record IsSent (l : BufList (EncodedBuf (List ℕ))) (r : ListSent) : Type 0 where
  pub kept : r.sent ++ bytes_of bytes_ops r.list.bufs ≡ bytes_of bytes_ops l.bufs
  pub valid : IsValid bytes_ops r.list
  pub finished : r.result ≡ ok false → bytes_of bytes_ops r.list.bufs ≡ []

abbrev pub Sends : BufList (EncodedBuf (List ℕ)) → Option ListSent → Type 0
Sends l r = (s : ListSent) × (r ≡ some s) × IsSent l s

no_bytes : (bytes : List ℕ) → length bytes ≡ 0 → bytes ≡ []
no_bytes [] h = refl
no_bytes (b ∷ bytes) h = absurd (omega arith)

stop-Sends :
    (l : BufList (EncodedBuf (List ℕ))) (result : Result SocketError Bool)
    → IsValid bytes_ops l
    → (result ≡ ok false → l.remaining ≡ 0)
    → Sends l (some (record { sent = []; list = l; result = result }))
stop-Sends l result v h = (
  record { sent = []; list = l; result = result },
  refl,
  record {
    kept = refl;
    valid = v;
    finished = λ e. no_bytes (bytes_of bytes_ops l.bufs) (omega (arith, v.counted, h e));
  },
)

ended-Sends :
    (l : BufList (EncodedBuf (List ℕ))) (r : Option ListSent)
    → IsValid bytes_ops l
    → ((l.remaining == 0) ≡ false → Sends l r)
    → Sends l
        (if l.remaining == 0 then some (record { sent = []; list = l; result = ok false }) else r)
ended-Sends l r v go = elim (Bool-cases (l.remaining == 0)) [
  | inl over ↦ rw over (stop-Sends l (ok false) v (λ e. ground arith))
  | inr more ↦ rw more (go more)
]

split_offer :
    (offered rest all : List ℕ) (k : ℕ)
    → offered ++ rest ≡ all
    → k ≤ length offered
    → take k offered ++ drop k all ≡ all
split_offer offered rest all k e h =
    ap (λ (t : List ℕ). t ++ drop k all) (sym (take-append k offered rest h) ∙ ap (take k) e)
    ∙ take-append-drop k all

take_bytes-Sends :
    (n : ℕ) (l : BufList (EncodedBuf (List ℕ)))
    (again : BufList (EncodedBuf (List ℕ)) → Option ListSent)
    → IsValid bytes_ops l
    → ((rest : BufList (EncodedBuf (List ℕ))) → IsValid bytes_ops rest → Sends rest (again rest))
    → Sends l (take_bytes n l again)
unfolding take_bytes chunks_vectored
take_bytes-Sends n l again v ih =
    let slices = vectored bytes_ops l.bufs 64 in
    let (left, front, count, all) = vectored_front bytes_ops l.bufs 64 in
    let offered = flatten slices in
    let k = min n (length offered) in
    let size = length-append offered left in
    let total = ap length front in
    let (rest, q, bytes, v') =
      (advance-Holds bytes_ops l k v).0 (omega (arith, v.counted, size, total)) in
    let (s, q', sent) = ih rest v' in
    (
      record s { sent = take k offered ++ s.sent },
      rw q (rw q'),
      record {
        kept =
            append_assoc (take k offered) s.sent (bytes_of bytes_ops s.list.bufs)
            ∙ ap (λ (t : List ℕ). take k offered ++ t) (sent.kept ∙ bytes)
            ∙ split_offer offered left (bytes_of bytes_ops l.bufs) k front (omega arith);
        valid = sent.valid;
        finished = sent.finished;
      },
    )

-- `try_write` over a list of buffers loses no byte and repeats none, whatever the socket accepts at a
-- time: it does not panic, what the socket took and what is left make up the bytes that there were,
-- and nothing is left where it says that it is finished.
pub write_list-Sends :
    (answers : List Outgoing) (l : BufList (EncodedBuf (List ℕ)))
    → IsValid bytes_ops l
    → Sends l (write_list answers l)
unfolding write_list
write_list-Sends [] l v = ended-Sends l _ v (λ h. stop-Sends l _ v (λ e. absurd (let q = e in cc)))
write_list-Sends (Outgoing.blocked ∷ answers) l v =
    ended-Sends l _ v (λ h. stop-Sends l _ v (λ e. absurd (let q = e in cc)))
write_list-Sends (Outgoing.failed ∷ answers) l v =
    ended-Sends l _ v (λ h. stop-Sends l _ v (λ e. absurd (let q = e in cc)))
write_list-Sends (accepted zero ∷ answers) l v =
    ended-Sends l _ v (λ h. stop-Sends l _ v (λ e. absurd (let q = e in cc)))
write_list-Sends (accepted (suc n) ∷ answers) l v = ended-Sends l _ v (λ h.
    take_bytes-Sends (suc n) l (write_list answers) v (λ rest v'. write_list-Sends answers rest v'))

-- `try_write` over a flat buffer does the same; after an error the buffer is as it was.
pub write_flat-kept :
    (answers : List Outgoing) (written left : List ℕ)
    → let r = write_flat answers written left in
      ((blocked : Bool) → r.result ≡ ok blocked → r.sent ++ r.buf ≡ written ++ left)
      × ((e : SocketError) → r.result ≡ err e → r.buf ≡ written ++ left)
      × (r.result ≡ ok false → r.buf ≡ [])
unfolding write_flat
write_flat-kept answers written [] = (λ b e. refl, λ x e. absurd (let q = e in cc), λ e. refl)
write_flat-kept [] written (b ∷ left) =
    (λ t e. refl, λ x e. absurd (let q = e in cc), λ e. absurd (let q = e in cc))
write_flat-kept (Outgoing.blocked ∷ answers) written (b ∷ left) =
    (λ t e. refl, λ x e. absurd (let q = e in cc), λ e. absurd (let q = e in cc))
write_flat-kept (Outgoing.failed ∷ answers) written (b ∷ left) =
    (λ t e. absurd (let q = e in cc), λ x e. refl, λ e. absurd (let q = e in cc))
write_flat-kept (accepted zero ∷ answers) written (b ∷ left) =
    (λ t e. absurd (let q = e in cc), λ x e. refl, λ e. absurd (let q = e in cc))
write_flat-kept (accepted (suc n) ∷ answers) written (b ∷ left) =
    let (kept, error, over) =
      write_flat-kept answers (written ++ take (suc n) (b ∷ left)) (drop (suc n) (b ∷ left)) in
    let same =
      append_assoc written (take (suc n) (b ∷ left)) (drop (suc n) (b ∷ left))
      ∙ ap (λ (t : List ℕ). written ++ t) (take-append-drop (suc n) (b ∷ left)) in
    (λ t e. kept t e ∙ same, λ x e. error x e ∙ same, over)

abbrev pub is_some : List ℕ → Bool
is_some [] = false
is_some (b ∷ bytes) = true

-- The bytes that come from a socket while a buffer that holds `n` of them is below the limit, and how
-- reading ends: at the limit, where the socket has nothing more for now or fails, or at its end.
pub data Arrives (limit : ℕ)
    : ℕ → List Incoming → List ℕ → Result SocketError (Unit {0}) → Type 0 where
  full : (n : ℕ) (answers : List Incoming) → limit ≤ n → Arrives limit n answers [] (ok tt)
  quiet : (n : ℕ) → n < limit → Arrives limit n [] [] (ok tt)
  would_block :
      (n : ℕ) (answers : List Incoming)
      → n < limit
      → Arrives limit n (Incoming.blocked ∷ answers) [] (ok tt)
  fails :
      (n : ℕ) (answers : List Incoming)
      → n < limit
      → Arrives limit n (Incoming.failed ∷ answers) [] (err broken)
  ends :
      (n : ℕ) (answers : List Incoming)
      → n < limit
      → Arrives limit n (received [] ∷ answers) [] (err closed)
  more :
      (n x : ℕ) (xs : List ℕ) (answers : List Incoming) (bytes : List ℕ)
      (result : Result SocketError (Unit {0}))
      → n < limit
      → Arrives limit (n + length (x ∷ xs)) answers bytes result
      → Arrives limit n (received (x ∷ xs) ∷ answers) ((x ∷ xs) ++ bytes) result

-- The bytes that came stand behind those that were there, and the mark says whether any came.
abbrev pub Appends :
    ℕ → ReadBuf → List Incoming → Bool → ReadBuf × Result SocketError (Unit {0}) → Type 0
Appends limit b answers advanced r =
    (bytes : List ℕ) × Arrives limit (length b.buf) answers bytes r.1
    × (r.0.buf ≡ b.buf ++ bytes)
    × (r.0.advanced ≡ (is_some bytes || advanced))

or_true : (b : Bool) → (b || true) ≡ true
or_true true = refl
or_true false = refl

read_more-Appends :
    (limit : ℕ) (b : ReadBuf) (answers : List Incoming)
    → length b.buf < limit
    → Appends limit b answers b.advanced (read_more limit b answers)
unfolding read_more
read_more-Appends limit b [] room = ([], quiet _ room, sym (append-nil b.buf), refl)
read_more-Appends limit b (Incoming.blocked ∷ answers) room =
    ([], would_block _ answers room, sym (append-nil b.buf), refl)
read_more-Appends limit b (Incoming.failed ∷ answers) room =
    ([], fails _ answers room, sym (append-nil b.buf), refl)
read_more-Appends limit b (received [] ∷ answers) room =
    ([], ends _ answers room, sym (append-nil b.buf), refl)
read_more-Appends limit b (received (x ∷ xs) ∷ answers) room =
    let on : ReadBuf = record { advanced = true; buf = b.buf ++ x ∷ xs } in
    let grown = length-append b.buf (x ∷ xs) in
    elim (Bool-cases (leb limit (length (b.buf ++ x ∷ xs)))) [
      | inl stop ↦
          rw (stop, read_backpressure)
            (
              (x ∷ xs) ++ [],
              more _ x xs answers [] (ok tt) room (full _ answers (ground (arith, grown))),
              ap (λ (t : List ℕ). b.buf ++ t) (sym (append-nil (x ∷ xs))),
              refl,
            )
      | inr free ↦
          let (bytes, arrives, joined, mark) = read_more-Appends limit on answers (ground arith) in
          rw (free, read_backpressure)
            (
              (x ∷ xs) ++ bytes,
              more _ x xs answers bytes _ room (
                  subst (λ (n : ℕ). Arrives limit n answers bytes (read_more limit on answers).1)
                    grown arrives),
              joined ∙ append_assoc b.buf (x ∷ xs) bytes,
              mark ∙ or_true (is_some bytes),
            )
    ]

-- `try_read` puts behind what the buffer holds the bytes that the socket gives, one piece after the
-- other, until the limit of the buffer is reached, the socket has nothing more for now, fails, or is
-- at its end; the result says which, and the mark says whether anything came.
pub try_read-Appends :
    (limit : ℕ) (b : ReadBuf) (answers : List Incoming)
    → Appends limit b answers false (try_read limit b answers)
unfolding try_read set_advanced read_backpressure
try_read-Appends limit b answers =
    let still : ReadBuf = record b { advanced = false } in
    elim (Bool-cases (leb limit (length b.buf))) [
      | inl stop ↦ rw stop ([], full _ answers (ground arith), sym (append-nil b.buf), refl)
      | inr free ↦ rw free (read_more-Appends limit still answers (ground arith))
    ]
