-- ===== src/Jwt/Base64.antt =====
-- The decoder of dsp_jwt.c against the encoding of RFC 4648, section 5, without padding.
use dsp_embedded.Prelude.{
  ℕ, ◌+◌, ◌-◌, ◌*◌, ◌/◌, ◌%◌, ◌≤◌, ◌<◌, ◌≡◌, refl, ap, ap₂, Option, none, some, List, [], ◌∷◌,
  arith, if◌then◌else◌, ltb, ◌==◌, length, length-append, Text, AllBytes, ◌⊎◌, inl, inr,
}
use dsp_embedded.Jwt.{
  b64url_char_to_val, group_of_2, group_of_3, group_of_4, fitted, joined, base64url_decode, written,
  written_before, base64url_written,
}

-- The alphabet.
abbrev pub char_of : ℕ → ℕ
char_of v =
    if ltb v 26
    then v + 65
    else if ltb v 52
    then v + 71
    else if ltb v 62
    then v - 4
    else if v == 62
    then 45
    else 95

abbrev pub encode : List ℕ → Text
encode [] = []
encode (x ∷ []) = char_of (x / 4) ∷ char_of (x % 4 * 16) ∷ []
encode (x ∷ y ∷ []) = char_of (x / 4) ∷ char_of (x % 4 * 16 + y / 16) ∷ char_of (y % 16 * 4) ∷ []
encode (x ∷ y ∷ z ∷ bs) =
    char_of (x / 4)
    ∷ char_of (x % 4 * 16 + y / 16)
    ∷ char_of (y % 16 * 4 + z / 64)
    ∷ char_of (z % 64)
    ∷ encode bs

pub char_to_val-char_of : (v : ℕ) → v < 64 → b64url_char_to_val (char_of v) ≡ some v
char_to_val-char_of v h = ground arith

group_1 :
    (x : ℕ)
    → x < 256
    → group_of_2 (b64url_char_to_val (char_of (x / 4))) (b64url_char_to_val (char_of (x % 4 * 16)))
      ≡ some (x ∷ [])
group_1 x hx =
    rw (char_to_val-char_of (x / 4) (omega arith), char_to_val-char_of (x % 4 * 16) (omega arith))
      (ap (λ a. some (a ∷ [])) (omega arith))

group_2 :
    (x y : ℕ)
    → x < 256
    → y < 256
    → group_of_3
        (b64url_char_to_val (char_of (x / 4)))
        (b64url_char_to_val (char_of (x % 4 * 16 + y / 16)))
        (b64url_char_to_val (char_of (y % 16 * 4)))
      ≡ some (x ∷ y ∷ [])
group_2 x y hx hy =
    rw
      (
        char_to_val-char_of (x / 4) (omega arith),
        char_to_val-char_of (x % 4 * 16 + y / 16) (omega arith),
        char_to_val-char_of (y % 16 * 4) (omega arith),
      )
      (ap₂ (λ a b. some (a ∷ b ∷ [])) (omega arith) (omega arith))

group_3 :
    (x y z : ℕ)
    → x < 256
    → y < 256
    → z < 256
    → group_of_4
        (b64url_char_to_val (char_of (x / 4)))
        (b64url_char_to_val (char_of (x % 4 * 16 + y / 16)))
        (b64url_char_to_val (char_of (y % 16 * 4 + z / 64)))
        (b64url_char_to_val (char_of (z % 64)))
      ≡ some (x ∷ y ∷ z ∷ [])
group_3 x y z hx hy hz =
    rw
      (
        char_to_val-char_of (x / 4) (omega arith),
        char_to_val-char_of (x % 4 * 16 + y / 16) (omega arith),
        char_to_val-char_of (y % 16 * 4 + z / 64) (omega arith),
        char_to_val-char_of (z % 64) (omega arith),
      )
      (ap some (ap₂ ◌∷◌ (omega arith) (ap₂ ◌∷◌ (omega arith) (ap (λ c. c ∷ []) (omega arith)))))

-- What the encoder of RFC 4648 made of any bytes decodes to these bytes, in any buffer in which they
-- fit.
pub base64url_decode-encode :
    (bs : List ℕ) (room : ℕ)
    → AllBytes bs
    → length bs ≤ room
    → base64url_decode (encode bs) room ≡ some bs
unfolding base64url_decode
base64url_decode-encode [] room h fits = refl
base64url_decode-encode (x ∷ []) room h fits = ground (arith, group_1 x h.0)
base64url_decode-encode (x ∷ y ∷ []) room h fits = ground (arith, group_2 x y h.0 h.1.0)
base64url_decode-encode (x ∷ y ∷ z ∷ bs) room h fits =
    let ih = base64url_decode-encode bs (room - 3) h.1.1.1 (omega arith) in
    ground (arith, group_3 x y z h.0 h.1.0 h.1.1.0, ih)

-- What is written for one group is within the room.
written-group_of_2 :
    (a b : Option ℕ) (room : ℕ)
    → (length (written (fitted (group_of_2 a b) room)) ≤ room)
      × (length (written (fitted (group_of_2 a b) room)) ≤ 1)
written-group_of_2 a b room = ground arith

written-group_of_3 :
    (a b c : Option ℕ) (room : ℕ)
    → (length (written (fitted (group_of_3 a b c) room)) ≤ room)
      × (length (written (fitted (group_of_3 a b c) room)) ≤ 2)
written-group_of_3 a b c room = ground arith

fitted-group_of_4 :
    (a b c d : Option ℕ) (room : ℕ) (out : List ℕ)
    → fitted (group_of_4 a b c d) room ≡ some out
    → (length out ≡ 3) × (3 ≤ room)
fitted-group_of_4 a b c d room out e = ground arith

length-written_before :
    (g : Option (List ℕ)) (rest : List ℕ) (room n : ℕ)
    → ((out : List ℕ) → g ≡ some out → (length out ≡ 3) × (3 ≤ room))
    → length rest ≤ room - 3
    → length rest * 4 ≤ n * 3
    → (length (written_before g rest) ≤ room) × (length (written_before g rest) * 4 ≤ (n + 4) * 3)
length-written_before none rest room n f p q = (omega arith, omega arith)
length-written_before (some out) rest room n f p q =
    let h = f out refl in
    let l = length-append out rest in (omega (arith, h, l, p), omega (arith, h, l, q))

written-bounded :
    (src : Text) (room : ℕ)
    → (length (base64url_written src room) ≤ room)
      × (length (base64url_written src room) * 4 ≤ length src * 3)
unfolding base64url_written
written-bounded [] room = (omega arith, omega arith)
written-bounded (a ∷ []) room = (omega arith, omega arith)
written-bounded (a ∷ b ∷ []) room =
    let w = written-group_of_2 (b64url_char_to_val a) (b64url_char_to_val b) room in
    (w.0, omega (arith, w.1))
written-bounded (a ∷ b ∷ c ∷ []) room =
    let w =
      written-group_of_3 (b64url_char_to_val a) (b64url_char_to_val b) (b64url_char_to_val c)
        room in
    (w.0, omega (arith, w.1))
written-bounded (a ∷ b ∷ c ∷ d ∷ src) room =
    let ih = written-bounded src (room - 3) in
    let va = b64url_char_to_val a in
    let vb = b64url_char_to_val b in
    let vc = b64url_char_to_val c in
    let vd = b64url_char_to_val d in
    let w =
      length-written_before (fitted (group_of_4 va vb vc vd) room)
        (base64url_written src (room - 3)) room (length src)
        (λ out e. fitted-group_of_4 va vb vc vd room out e) ih.0 ih.1 in
    (w.0, omega (arith, w.1))

fitted-written : (g : Option (List ℕ)) → (g ≡ none) ⊎ (g ≡ some (written g))
fitted-written none = inl refl
fitted-written (some out) = inr refl

joined-written :
    (g r : Option (List ℕ)) (rest : List ℕ)
    → (r ≡ none) ⊎ (r ≡ some rest)
    → (joined g r ≡ none) ⊎ (joined g r ≡ some (written_before g rest))
joined-written none r rest d = inl refl
joined-written (some x) r rest (inl e) = rw e (inl refl)
joined-written (some x) r rest (inr e) = rw e (inr refl)

decode-written :
    (src : Text) (room : ℕ)
    → (base64url_decode src room ≡ none)
      ⊎ (base64url_decode src room ≡ some (base64url_written src room))
unfolding base64url_decode base64url_written
decode-written [] room = inr refl
decode-written (a ∷ []) room = inl refl
decode-written (a ∷ b ∷ []) room =
    fitted-written (fitted (group_of_2 (b64url_char_to_val a) (b64url_char_to_val b)) room)
decode-written (a ∷ b ∷ c ∷ []) room =
    fitted-written (
      fitted (group_of_3 (b64url_char_to_val a) (b64url_char_to_val b) (b64url_char_to_val c)) room)
decode-written (a ∷ b ∷ c ∷ d ∷ src) room =
    joined-written
      (fitted
        (group_of_4 (b64url_char_to_val a) (b64url_char_to_val b) (b64url_char_to_val c)
          (b64url_char_to_val d))
        room)
      (base64url_decode src (room - 3)) (base64url_written src (room - 3))
      (decode-written src (room - 3))

-- The decoder never writes behind the buffer, whatever the text and whether it fails or not: what it
-- has written is at most as long as the room, and as three quarters of the text. Where it does not
-- fail, this is what it counts in its result.
pub base64url_decode_bounded :
    (src : Text) (room : ℕ)
    → (length (base64url_written src room) ≤ room)
      × (length (base64url_written src room) * 4 ≤ length src * 3)
      × ((base64url_decode src room ≡ none)
          ⊎ (base64url_decode src room ≡ some (base64url_written src room)))
base64url_decode_bounded src room =
    let w = written-bounded src room in (w.0, w.1, decode-written src room)
