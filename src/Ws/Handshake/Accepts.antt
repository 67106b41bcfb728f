-- ===== src/Ws/Handshake/Accepts.antt =====
-- Which requests the handshake of http-ws/src/lib.rs accepts.
use actix_server_alt.Prelude.{
  ℕ, ◌≡◌, ◌↔◌, refl, ap, ap₂, sym, ◌∙◌, Bool, true, false, not, ◌&&◌, ◌||◌, Bool-cases, ==_iff,
  Option, none, some, List, [], ◌∷◌, ◌++◌, map, if◌then◌else◌, ◌==◌, ok, err, inl, inr, ◌⊎◌,
}
use actix_server_alt.Prelude.Text.{is_visible, to_ascii_lowercase}
use actix_server_alt.Ws.Handshake.{
  no_websocket_upgrade, no_connection_upgrade, HeaderMap, upgrade, connection,
  sec_websocket_version, sec_websocket_key, websocket_text, upgrade_text, starts_with,
  contains_text, mentions, is_supported, verify_key, verify_version, verify_handshake,
}

and_iff : (a b : Bool) → ((a && b) ≡ true) ↔ ((a ≡ true) × (b ≡ true))
and_iff true b = (λ e. (refl, e), λ h. h.1)
and_iff false b = (λ e. absurd (let q = e in cc), λ h. h.0)

or_iff : (a b : Bool) → ((a || b) ≡ true) ↔ ((a ≡ true) ⊎ (b ≡ true))
or_iff true b = (λ e. inl refl, λ h. refl)
or_iff false b = (λ e. inr e, λ h. elim h [ inl e ↦ absurd (let q = e in cc) | inr e ↦ e ])

-- The text stands somewhere in the value.
abbrev pub Occurs : List ℕ → List ℕ → Type 0
Occurs text s = (front : List ℕ) × (back : List ℕ) × (s ≡ front ++ (text ++ back))

abbrev Begins : List ℕ → List ℕ → Type 0
Begins text s = (back : List ℕ) × (s ≡ text ++ back)

starts_with-Begins : (text s : List ℕ) → starts_with text s ≡ true → Begins text s
unfolding starts_with
starts_with-Begins [] s e = (s, refl)
starts_with-Begins (x ∷ text) [] e = absurd (let q = e in cc)
starts_with-Begins (x ∷ text) (y ∷ s) e =
    let (first, others) = (and_iff (x == y) (starts_with text s)).0 e in
    let (back, q) = starts_with-Begins text s others in
    (back, ap₂ ◌∷◌ (sym ((==_iff x y).0 first)) q)

Begins-starts_with : (text back : List ℕ) → starts_with text (text ++ back) ≡ true
unfolding starts_with
Begins-starts_with [] back = refl
Begins-starts_with (x ∷ text) back =
    (and_iff (x == x) (starts_with text (text ++ back))).1
      ((==_iff x x).1 refl, Begins-starts_with text back)

contains_text-Occurs : (text s : List ℕ) → contains_text text s ≡ true → Occurs text s
unfolding contains_text
contains_text-Occurs text [] e = let (back, q) = starts_with-Begins text [] e in ([], back, q)
contains_text-Occurs text (y ∷ s) e =
    elim ((or_iff (starts_with text (y ∷ s)) (contains_text text s)).0 e) [
      | inl here ↦ let (back, q) = starts_with-Begins text (y ∷ s) here in ([], back, q)
      | inr later ↦
          let (front, back, q) = contains_text-Occurs text s later in
          (y ∷ front, back, ap (◌∷◌ y) q)
    ]

contains_here : (text s : List ℕ) → starts_with text s ≡ true → contains_text text s ≡ true
unfolding contains_text
contains_here text [] e = e
contains_here text (y ∷ s) e = (or_iff (starts_with text (y ∷ s)) (contains_text text s)).1 (inl e)

Occurs-contains_text :
    (text front back : List ℕ) → contains_text text (front ++ (text ++ back)) ≡ true
unfolding contains_text
Occurs-contains_text text [] back = contains_here text (text ++ back) (Begins-starts_with text back)
Occurs-contains_text text (y ∷ front) back =
    (or_iff (starts_with text (y ∷ (front ++ (text ++ back))))
        (contains_text text (front ++ (text ++ back)))).1
      (inr (Occurs-contains_text text front back))

-- A header that is there, is readable as text, and names the text, in letters of either case.
abbrev pub Mentions : Option (List ℕ) → List ℕ → Type 0
Mentions header text =
    (value : List ℕ) × (header ≡ some value)
    × (is_visible value ≡ true)
    × Occurs text (map to_ascii_lowercase value)

mentions-Mentions :
    (header : Option (List ℕ)) (text : List ℕ)
    → (mentions header text ≡ true) ↔ Mentions header text
unfolding mentions
mentions-Mentions none text = (λ e. absurd (let q = e in cc), λ h. absurd (let q = h.1 in cc))
mentions-Mentions (some value) text = (
  λ e.
      let (visible, inside) =
        (and_iff (is_visible value) (contains_text text (map to_ascii_lowercase value))).0 e in
      (value, refl, visible, contains_text-Occurs text (map to_ascii_lowercase value) inside),
  λ (value', q, visible, (front, back, inside)).
      let same : value ≡ value' = cc in
      rw same (
        (and_iff (is_visible value') (contains_text text (map to_ascii_lowercase value'))).1
          (visible, rw inside (Occurs-contains_text text front back))),
)

-- What a request has to have, with the key of its header.
pub record Accepts (is_get : Bool) (headers : HeaderMap) (key : List ℕ) : Type 0 where
  pub method : is_get ≡ true
  pub upgrades : Mentions (headers upgrade) websocket_text
  pub connects : Mentions (headers connection) upgrade_text
  pub version :
      (value : List ℕ) × (headers sec_websocket_version ≡ some value) × (is_supported value ≡ true)
  pub has_key : headers sec_websocket_key ≡ some key

verify_key-ok :
    (header : Option (List ℕ)) (key : List ℕ) → (verify_key header ≡ ok key) ↔ (header ≡ some key)
unfolding verify_key
verify_key-ok none key = (λ e. absurd (let q = e in cc), λ e. absurd (let q = e in cc))
verify_key-ok (some value) key = (λ e. cc, λ e. cc)

verify_version-ok :
    (version header : Option (List ℕ)) (key : List ℕ)
    → (verify_version version header ≡ ok key) ↔ (
        ((value : List ℕ) × (version ≡ some value) × (is_supported value ≡ true))
        × (header ≡ some key))
unfolding verify_version
verify_version-ok none header key =
    (λ e. absurd (let q = e in cc), λ h. absurd (let q = h.0.1 in cc))
verify_version-ok (some value) header key = (
  elim (Bool-cases (is_supported value)) [
    | inl good ↦ rw good (λ e. ((value, refl, good), (verify_key-ok header key).0 e))
    | inr bad ↦ rw bad (λ e. absurd (let q = e in cc))
  ],
  λ h.
      let same : value ≡ h.0.0 = let q = h.0.1 in cc in
      let good : is_supported value ≡ true = ap is_supported same ∙ h.0.2 in
      rw good ((verify_key-ok header key).1 h.1),
)

-- A request is verified, with a key, exactly if it is a GET whose headers "Upgrade" and "Connection"
-- name the upgrade to a WebSocket, in letters of either case, with a version that is supported, and
-- the key is that of its header.
pub verify_handshake-Accepts :
    (is_get : Bool) (headers : HeaderMap) (key : List ℕ)
    → (verify_handshake is_get headers ≡ ok key) ↔ Accepts is_get headers key
unfolding verify_handshake
verify_handshake-Accepts is_get headers key = (accepted is_get, complete)
  where
    connected :
        (c : Bool)
        → mentions (headers connection) upgrade_text ≡ c
        → (if not c
            then err no_connection_upgrade
            else verify_version (headers sec_websocket_version) (headers sec_websocket_key))
          ≡ ok key
        → Mentions (headers connection) upgrade_text
          × ((value : List ℕ) × (headers sec_websocket_version ≡ some value)
              × (is_supported value ≡ true))
          × (headers sec_websocket_key ≡ some key)
    connected false q e = absurd (let r = e in cc)
    connected true q e =
        let (version, header) = (verify_version-ok _ _ key).0 e in
        ((mentions-Mentions _ _).0 q, version, header)

    upgraded :
        (u : Bool)
        → mentions (headers upgrade) websocket_text ≡ u
        → (if not u
            then err no_websocket_upgrade
            else if not (mentions (headers connection) upgrade_text)
            then err no_connection_upgrade
            else verify_version (headers sec_websocket_version) (headers sec_websocket_key))
          ≡ ok key
        → Accepts true headers key
    upgraded false q e = absurd (let r = e in cc)
    upgraded true q e =
        let (connects, version, has_key) =
          connected (mentions (headers connection) upgrade_text) refl e in
        record {
          method = refl;
          upgrades = (mentions-Mentions _ _).0 q;
          connects = connects;
          version = version;
          has_key = has_key;
        }

    accepted :
        (is_get : Bool) → verify_handshake is_get headers ≡ ok key → Accepts is_get headers key
    accepted false e = absurd (let r = e in cc)
    accepted true e = upgraded (mentions (headers upgrade) websocket_text) refl e

    complete : Accepts is_get headers key → verify_handshake is_get headers ≡ ok key
    complete a =
        let names = (mentions-Mentions (headers upgrade) websocket_text).1 a.upgrades in
        let names' = (mentions-Mentions (headers connection) upgrade_text).1 a.connects in
        rw a.method (rw names (rw names' ((verify_version-ok _ _ key).1 (a.version, a.has_key))))
