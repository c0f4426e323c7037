-- ===== src/Serialize/Characters.antt =====
-- Truncation stops between characters, at the last place within the cap.
use snow_mcp.Common.{
  ℕ, zero, suc, ◌+◌, ◌≤◌, ◌<◌, ◌≡◌, refl, ap, subst, ◌∙◌, sym, true, false, List, [], ◌∷◌, ◌++◌,
  length, All, arith, inl, inr, ◌⊎◌, chosen,
}
use snow_mcp.Serialize.{
  Utf8, byte_at, is_continuation, first_bytes, back_off, decode, begins_with_mark,
  truncate_encoded_utf8,
}

-- A character: its first byte, which continues none, and those that continue it.
pub record Character : Type 0 where
  pub lead : ℕ
  pub rest : Utf8
  pub begins : is_continuation lead ≡ false
  pub continues : All (λ b. is_continuation b ≡ true) rest

abbrev pub encoded : List Character → Utf8
encoded [] = []
encoded (c ∷ cs) = c.lead ∷ (c.rest ++ encoded cs)

abbrev pub first_characters : ℕ → List Character → List Character
first_characters zero cs = []
first_characters (suc k) [] = []
first_characters (suc k) (c ∷ cs) = c ∷ first_characters k cs

-- A place that no byte continues is after the bytes that continue a character.
after_rest :
    (rest : Utf8) (j : ℕ) (bs : Utf8)
    → All (λ b. is_continuation b ≡ true) rest
    → is_continuation (byte_at (rest ++ bs) j) ≡ false
    → (i : ℕ) × (first_bytes j (rest ++ bs) ≡ rest ++ first_bytes i bs)
      × (is_continuation (byte_at bs i) ≡ false)
after_rest [] j bs all h = (j, refl, h)
after_rest (b ∷ rest) zero bs all h = absurd (cc (all.0, h))
after_rest (b ∷ rest) (suc j) bs all h =
    let (i, e, k) = after_rest rest j bs all.1 h in (i, ap (λ s. b ∷ s) e, k)

-- The bytes before such a place are those of whole characters.
whole_before :
    (cs : List Character) (j : ℕ)
    → is_continuation (byte_at (encoded cs) j) ≡ false
    → (k : ℕ) × (first_bytes j (encoded cs) ≡ encoded (first_characters k cs))
whole_before [] zero h = (0, refl)
whole_before [] (suc j) h = (0, refl)
whole_before (c ∷ cs) zero h = (0, refl)
whole_before (c ∷ cs) (suc j) h =
    let (i, e, h') = after_rest c.rest j (encoded cs) c.continues h in
    let (k, e') = whole_before cs i h' in
    (suc k, ap (λ s. c.lead ∷ s) (e ∙ ap (λ s. c.rest ++ s) e'))

back_off-begins :
    (bs : Utf8) (n : ℕ)
    → (back_off bs n ≡ 0) ⊎ (is_continuation (byte_at bs (back_off bs n)) ≡ false)
unfolding back_off
back_off-begins bs zero = inl refl
back_off-begins bs (suc n) =
    chosen (λ j. (j ≡ 0) ⊎ (is_continuation (byte_at bs j) ≡ false))
      (is_continuation (byte_at bs (suc n))) (back_off bs n) (suc n) (λ e. back_off-begins bs n)
      (λ e. inr e)

back_off_le : (bs : Utf8) (n : ℕ) → back_off bs n ≤ n
unfolding back_off
back_off_le bs zero = omega arith
back_off_le bs (suc n) =
    chosen (λ j. j ≤ suc n) (is_continuation (byte_at bs (suc n))) (back_off bs n) (suc n)
      (λ e. omega (arith, back_off_le bs n)) (λ e. omega arith)

-- What is passed over continues a character.
back_off-skips :
    (bs : Utf8) (n i : ℕ) → back_off bs n < i → i ≤ n → is_continuation (byte_at bs i) ≡ true
unfolding back_off
back_off-skips bs zero i = λ h k. absurd (omega (arith, h, k))
back_off-skips bs (suc n) i =
    chosen (λ j. j < i → i ≤ suc n → is_continuation (byte_at bs i) ≡ true)
      (is_continuation (byte_at bs (suc n))) (back_off bs n) (suc n)
      (λ e h k. by_place e (back_off-skips bs n i h) (le_cases i n k))
      (λ e h k. absurd (omega (arith, h, k)))
  where
    le_cases : (i n : ℕ) → i ≤ suc n → (i ≡ suc n) ⊎ (i ≤ n)
    le_cases i n k = ground arith

    by_place :
        is_continuation (byte_at bs (suc n)) ≡ true
        → (i ≤ n → is_continuation (byte_at bs i) ≡ true)
        → (i ≡ suc n) ⊎ (i ≤ n)
        → is_continuation (byte_at bs i) ≡ true
    by_place e before (inl same) = ap (λ j. is_continuation (byte_at bs j)) same ∙ e
    by_place e before (inr le) = before le

length-first_bytes_of : (n : ℕ) (bs : Utf8) → n ≤ length bs → length (first_bytes n bs) ≡ n
length-first_bytes_of zero bs h = refl
length-first_bytes_of (suc n) [] h = absurd (omega (arith, h))
length-first_bytes_of (suc n) (b ∷ bs) h =
    omega (arith, length-first_bytes_of n bs (omega (arith, h)))

byte_at-append : (xs ys zs : Utf8) → byte_at (xs ++ ys) (length (xs ++ zs)) ≡ byte_at ys (length zs)
byte_at-append [] ys zs = refl
byte_at-append (x ∷ xs) ys zs = byte_at-append xs ys zs

-- After whole characters no byte continues one.
next_begins :
    (k : ℕ) (cs : List Character)
    → is_continuation (byte_at (encoded cs) (length (encoded (first_characters k cs)))) ≡ false
next_begins zero [] = refl
next_begins zero (c ∷ cs) = c.begins
next_begins (suc k) [] = refl
next_begins (suc k) (c ∷ cs) =
    ap is_continuation (byte_at-append c.rest (encoded cs) (encoded (first_characters k cs)))
    ∙ next_begins k cs

length-append : (xs ys : Utf8) → length (xs ++ ys) ≡ length xs + length ys
length-append [] ys = omega arith
length-append (x ∷ xs) ys = omega (arith, length-append xs ys)

-- One character more is longer, or they are all.
one_more :
    (k : ℕ) (cs : List Character)
    → (length (encoded (first_characters k cs)) < length (encoded (first_characters (suc k) cs)))
      ⊎ (first_characters (suc k) cs ≡ cs)
one_more zero [] = inr refl
one_more zero (c ∷ cs) = inl (omega arith)
one_more (suc k) [] = inr refl
one_more (suc k) (c ∷ cs) = by_rest (one_more k cs)
  where
    by_rest :
        (length (encoded (first_characters k cs)) < length (encoded (first_characters (suc k) cs)))
          ⊎ (first_characters (suc k) cs ≡ cs)
        → (length (encoded (first_characters (suc k) (c ∷ cs)))
            < length (encoded (first_characters (suc (suc k)) (c ∷ cs))))
          ⊎ (first_characters (suc (suc k)) (c ∷ cs) ≡ c ∷ cs)
    by_rest (inl longer) =
        let a = length-append c.rest (encoded (first_characters k cs)) in
        let b = length-append c.rest (encoded (first_characters (suc k) cs)) in
        inl (omega (arith, longer, a, b))
    by_rest (inr all) = inr (ap (λ ds. c ∷ ds) all)

whole_at :
    (cs : List Character) (j : ℕ)
    → (j ≡ 0) ⊎ (is_continuation (byte_at (encoded cs) j) ≡ false)
    → (k : ℕ) × (first_bytes j (encoded cs) ≡ encoded (first_characters k cs))
whole_at cs j (inl start) = (0, ap (λ i. first_bytes i (encoded cs)) start)
whole_at cs j (inr begins) = whole_before cs j begins

-- The bytes of a byte-order mark.
abbrev pub mark : Utf8
mark = 239 ∷ 187 ∷ 191 ∷ []

-- A text is read from its bytes, without the byte-order mark, if it begins with one.
abbrev pub ReadFrom : Utf8 → Utf8 → Type 0
ReadFrom bs text = ((begins_with_mark bs ≡ false) × (text ≡ bs)) ⊎ (mark ++ text ≡ bs)

decode-ReadFrom : (bs : Utf8) → ReadFrom bs (decode bs)
unfolding decode begins_with_mark
decode-ReadFrom [] = inl (refl, refl)
decode-ReadFrom (a ∷ []) = inl (refl, refl)
decode-ReadFrom (a ∷ b ∷ []) = inl (refl, refl)
decode-ReadFrom (a ∷ b ∷ c ∷ bs) = ground arith

-- Of a text beyond the cap, what is kept is its first characters, whole, without a byte-order mark if
-- the text begins with one, and one more would pass the cap.
pub truncate-whole :
    (cs : List Character) (n : ℕ)
    → n < length (encoded cs)
    → (k : ℕ) × ReadFrom (encoded (first_characters k cs)) (truncate_encoded_utf8 (encoded cs) n)
      × (n < length (encoded (first_characters (suc k) cs)))
unfolding truncate_encoded_utf8
truncate-whole cs n beyond =
    let j = back_off (encoded cs) n in
    let below = back_off_le (encoded cs) n in
    let (k, e) = whole_at cs j (back_off-begins (encoded cs) n) in
    let len =
      sym (length-first_bytes_of j (encoded cs) (omega (arith, below, beyond))) ∙ ap length e in
    let read : ReadFrom (encoded (first_characters k cs)) (decode (first_bytes j (encoded cs))) =
      subst (λ bs. ReadFrom bs (decode (first_bytes j (encoded cs)))) e
        (decode-ReadFrom (first_bytes j (encoded cs))) in
    (
      k,
      read,
      past k len (one_more k cs) (lt_cases n (length (encoded (first_characters (suc k) cs)))),
    )
  where
    lt_cases : (n e : ℕ) → (n < e) ⊎ (e ≤ n)
    lt_cases n e = ground arith

    past :
        (k : ℕ)
        → back_off (encoded cs) n ≡ length (encoded (first_characters k cs))
        → (length (encoded (first_characters k cs))
            < length (encoded (first_characters (suc k) cs)))
          ⊎ (first_characters (suc k) cs ≡ cs)
        → (n < length (encoded (first_characters (suc k) cs)))
          ⊎ (length (encoded (first_characters (suc k) cs)) ≤ n)
        → n < length (encoded (first_characters (suc k) cs))
    past k len more (inl over) = over
    past k len (inl longer) (inr fits) =
        let end = length (encoded (first_characters (suc k) cs)) in
        let skipped = back_off-skips (encoded cs) n end (omega (arith, len, longer)) fits in
        absurd (cc (skipped, next_begins (suc k) cs))
    past k len (inr all) (inr fits) =
        let whole = ap (λ ds. length (encoded ds)) all in
        absurd (omega (arith, whole, fits, beyond))
