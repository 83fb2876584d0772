-- ===== src/Peakgo/Netio/Reading.antt =====
-- What is read depends on the bytes of the connection and not on the pieces in which they arrive
-- (server/peakgo/netio/packet.go).
use minnsun_s_adventure.Common.{
  ℕ, zero, suc, ◌+◌, ◌-◌, ◌*◌, ◌^◌, ◌≤◌, ◌<◌, ◌≡◌, refl, sym, ap, ◌∙◌, true, false, inl, inr, List,
  [], ◌∷◌, ◌++◌, none, some, arith, ltb, length, take, drop, dec_lt, get_or, lt→ltb,
}
use minnsun_s_adventure.Peakgo.Codec.{Bytes, read_uint16}
use minnsun_s_adventure.Peakgo.Codec.RoundTrips.{take-append, drop-append}
use minnsun_s_adventure.Peakgo.Netio.{
  Conn, NetError, read, fill, early, read_full, header_error, after_read, read_header,
}

-- The bytes that arrive in some pieces.
abbrev pub flat : List Bytes → Bytes
flat [] = []
flat (piece ∷ pieces) = piece ++ flat pieces

pub ge→ltb : {a b : ℕ} → b ≤ a → ltb a b ≡ false
ge→ltb h = ground arith

length-take_le : (n : ℕ) (xs : Bytes) → length (take n xs) ≤ length xs
length-take_le zero xs = omega arith
length-take_le (suc n) [] = omega arith
length-take_le (suc n) (x ∷ xs) = omega (arith, length-take_le n xs)

take-append_lt : (n : ℕ) (xs ys : Bytes) → n < length xs → take n (xs ++ ys) ≡ take n xs
take-append_lt n [] ys h = absurd (omega arith)
take-append_lt zero (x ∷ xs) ys h = refl
take-append_lt (suc n) (x ∷ xs) ys h = ap (λ zs. x ∷ zs) (take-append_lt n xs ys (omega arith))

drop-append_lt : (n : ℕ) (xs ys : Bytes) → n < length xs → drop n (xs ++ ys) ≡ drop n xs ++ ys
drop-append_lt n [] ys h = absurd (omega arith)
drop-append_lt zero (x ∷ xs) ys h = refl
drop-append_lt (suc n) (x ∷ xs) ys h = drop-append_lt n xs ys (omega arith)

take-append_ge : (n m : ℕ) (xs ys : Bytes) → n ≡ length xs + m → take n (xs ++ ys) ≡ xs ++ take m ys
take-append_ge n m [] ys h = let same : n ≡ m = omega arith in ap (λ k. take k ys) same
take-append_ge zero m (x ∷ xs) ys h = absurd (omega arith)
take-append_ge (suc n) m (x ∷ xs) ys h = ap (λ zs. x ∷ zs) (take-append_ge n m xs ys (omega arith))

drop-append_ge : (n m : ℕ) (xs ys : Bytes) → n ≡ length xs + m → drop n (xs ++ ys) ≡ drop m ys
drop-append_ge n m [] ys h = let same : n ≡ m = omega arith in ap (λ k. drop k ys) same
drop-append_ge zero m (x ∷ xs) ys h = absurd (omega arith)
drop-append_ge (suc n) m (x ∷ xs) ys h = drop-append_ge n m xs ys (omega arith)

abbrev IsFill : ℕ → List Bytes → Bytes × List Bytes → Type 0
IsFill n pieces r = (r.0 ≡ take n (flat pieces)) × (flat r.1 ≡ drop n (flat pieces))

fill_piece :
    (n : ℕ) (piece : Bytes) (pieces : List Bytes)
    → IsFill (suc n - length piece) pieces (fill (suc n - length piece) pieces)
    → IsFill (suc n) (piece ∷ pieces) (fill (suc n) (piece ∷ pieces))
fill_piece n piece pieces (got, left) = elim (dec_lt (suc n) (length piece)) [
  | yes h ↦
      let t : ltb (suc n) (length piece) ≡ true = ground arith in
      rw t (
        sym (take-append_lt (suc n) piece (flat pieces) h),
        sym (drop-append_lt (suc n) piece (flat pieces) h),
      )
  | no h ↦
      let t : ltb (suc n) (length piece) ≡ false = ground arith in
      let m = suc n - length piece in
      rw t (
        ap (λ zs. piece ++ zs) got
            ∙ sym (take-append_ge (suc n) m piece (flat pieces) (omega arith)),
        left ∙ sym (drop-append_ge (suc n) m piece (flat pieces) (omega arith)),
      )
]

fill-IsFill : (n : ℕ) (pieces : List Bytes) → IsFill n pieces (fill n pieces)
fill-IsFill zero pieces = (refl, refl)
fill-IsFill (suc n) [] = (refl, refl)
fill-IsFill (suc n) (piece ∷ pieces) =
    fill_piece n piece pieces (fill-IsFill (suc n - length piece) pieces)

-- Where n bytes come, `io.ReadFull` reads them.
pub read_full_lem :
    (c : Conn) (xs ys : Bytes)
    → flat c.pieces ≡ xs ++ ys
    → (c' : Conn) × (read_full (length xs) c ≡ (xs, none, c')) × (flat c'.pieces ≡ ys)
read_full_lem c xs ys come =
    let (got, left) = fill-IsFill (length xs) c.pieces in
    let is_xs : (fill (length xs) c.pieces).0 ≡ xs =
      got ∙ ap (take (length xs)) come ∙ take-append xs ys in
    let enough : ltb (length (fill (length xs) c.pieces).0) (length xs) ≡ false =
      ge→ltb (omega (arith, ap length is_xs)) in
    let c' = record c { pieces = (fill (length xs) c.pieces).1 } in
    (
      c',
      rw enough (ap (λ b. (b, none, c')) is_xs),
      left ∙ ap (drop (length xs)) come ∙ drop-append xs ys,
    )

-- Where fewer than n bytes come, it fails.
pub read_full_fails :
    (n : ℕ) (c : Conn)
    → length (flat c.pieces) < n
    → (got : Bytes) × (e : NetError) × (c' : Conn) × (read_full n c ≡ (got, some e, c'))
read_full_fails n c short =
    let (got, left) = fill-IsFill n c.pieces in
    let early_end : ltb (length (fill n c.pieces).0) n ≡ true =
      lt→ltb (length (fill n c.pieces).0) n
        (omega (arith, ap length got, length-take_le n (flat c.pieces))) in
    (
      (fill n c.pieces).0,
      early (fill n c.pieces).0 c.ending,
      record c { pieces = (fill n c.pieces).1 },
      rw early_end refl,
    )

read_long :
    (piece : Bytes) (pieces : List Bytes) (e : NetError)
    → ltb 2 (length piece) ≡ true
    → read 2 (record { pieces = piece ∷ pieces; ending = e })
      ≡ (take 2 piece, none, record { pieces = drop 2 piece ∷ pieces; ending = e })
read_long piece pieces e long = rw long refl

-- Where two bytes come, `ReadHeader` reads them.
pub read_header_lem :
    (pieces : List Bytes) (e : NetError) (h l : ℕ) (ys : Bytes)
    → flat pieces ≡ h ∷ l ∷ ys
    → (c' : Conn) × (read_header (record { pieces = pieces; ending = e })
        ≡ some (inr (h * 256 ^ 1 + (l * 256 ^ 0 + 0)), c'))
      × (flat c'.pieces ≡ ys)
unfolding read_header read_uint16
read_header_lem [] e h l ys come = absurd (omega (arith, ap length come))
read_header_lem ([] ∷ pieces) e h l ys come =
    let (c', reads, left) =
      read_full_lem (record { pieces = pieces; ending = e }) (h ∷ l ∷ []) ys come in
    (c', rw reads refl, left)
read_header_lem ((a ∷ []) ∷ pieces) e h l ys come =
    let (c', reads, left) =
      read_full_lem (record { pieces = pieces; ending = e }) (l ∷ []) ys (ap (drop 1) come) in
    let first : a ≡ h = ap (λ xs. get_or xs 0 0) come in
    (c', rw reads (ap (λ x. some (inr (x * 256 ^ 1 + (l * 256 ^ 0 + 0)), c')) first), left)
read_header_lem ((a ∷ b ∷ []) ∷ pieces) e h l ys come =
    let first : a ≡ h = ap (λ xs. get_or xs 0 0) come in
    let second : b ≡ l = ap (λ xs. get_or xs 1 0) come in
    (record { pieces = pieces; ending = e }, rw (first, second) refl, ap (drop 2) come)
read_header_lem ((a ∷ b ∷ x ∷ rest) ∷ pieces) e h l ys come =
    let first : a ≡ h = ap (λ xs. get_or xs 0 0) come in
    let second : b ≡ l = ap (λ xs. get_or xs 1 0) come in
    let more : ltb 2 (suc (suc (suc (length rest)))) ≡ true = lt→ltb 2 _ (omega arith) in
    (
      record { pieces = (x ∷ rest) ∷ pieces; ending = e },
      ap after_read (read_long (a ∷ b ∷ x ∷ rest) pieces e more) ∙ rw (first, second) refl,
      ap (drop 2) come,
    )

-- Where fewer than two bytes come, it fails.
pub read_header_fails :
    (pieces : List Bytes) (e : NetError)
    → length (flat pieces) < 2
    → (e' : NetError) × (c' : Conn) × (read_header (record { pieces = pieces; ending = e })
        ≡ some (inl e', c'))
unfolding read_header
read_header_fails [] e short = (header_error e, record { pieces = []; ending = e }, refl)
read_header_fails ([] ∷ pieces) e short =
    let (got, e', c', fails) = read_full_fails 2 (record { pieces = pieces; ending = e }) short in
    (header_error e', c', rw fails refl)
read_header_fails ((a ∷ []) ∷ pieces) e short =
    let (got, e', c', fails) =
      read_full_fails 1 (record { pieces = pieces; ending = e }) (omega arith) in
    (header_error e', c', rw fails refl)
read_header_fails ((a ∷ b ∷ rest) ∷ pieces) e short = absurd (omega arith)
