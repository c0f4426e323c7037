-- ===== src/Serialize/Caps.antt =====
-- The caps hold: of a truncated text, and of the logs of a snippet.
use snow_mcp.Common.{
  ℕ, zero, suc, ◌+◌, ◌-◌, ◌≤◌, ◌≡◌, refl, ap, true, false, List, [], ◌∷◌, ltb, length, arith,
  Bool-cases, inl, inr, ◌⊎◌,
}
use snow_mcp.Serialize.{
  Utf8, first_bytes, back_off, decode, begins_with_mark, truncate_encoded_utf8, truncate_utf8,
  first_entries, cap_entries, cap_logs, stop_at,
}

length-first_bytes : (n : ℕ) (bs : Utf8) → length (first_bytes n bs) ≤ n
length-first_bytes zero bs = omega arith
length-first_bytes (suc n) [] = omega arith
length-first_bytes (suc n) (b ∷ bs) = omega (arith, length-first_bytes n bs)

back_off-le : (bs : Utf8) (n : ℕ) → back_off bs n ≤ n
unfolding back_off
back_off-le bs zero = omega arith
back_off-le bs (suc n) = ground (arith, back_off-le bs n)

length-decode : (bs : Utf8) → length (decode bs) ≤ length bs
unfolding decode begins_with_mark
length-decode [] = omega arith
length-decode (a ∷ []) = omega arith
length-decode (a ∷ b ∷ []) = omega arith
length-decode (a ∷ b ∷ c ∷ bs) = ground arith

pub length-truncate : (bs : Utf8) (n : ℕ) → length (truncate_encoded_utf8 bs n) ≤ n
unfolding truncate_encoded_utf8
length-truncate bs n = omega (
  arith,
  length-decode (first_bytes (back_off bs n) bs),
  length-first_bytes (back_off bs n) bs,
  back_off-le bs n,
)

length-truncate_utf8 : (bs : Utf8) (n : ℕ) → length (truncate_utf8 bs n) ≤ n
unfolding truncate_utf8
length-truncate_utf8 bs n = let cut = length-truncate bs n in ground (arith, cut)

-- The bytes of all entries.
unfoldable pub total_length : List Utf8 → ℕ
total_length [] = 0
total_length (e ∷ es) = length e + total_length es

cap_entries-le :
    (max_bytes total : ℕ) (es : List Utf8)
    → total ≤ max_bytes
    → total + total_length (cap_entries max_bytes total es).logs ≤ max_bytes
unfolding cap_entries total_length
cap_entries-le max_bytes total [] h = omega (arith, h)
cap_entries-le max_bytes total (e ∷ es) h =
    let rest = cap_entries-le max_bytes (total + length e) es in
    let cut = length-truncate_utf8 e (max_bytes - total) in ground (arith, rest, cut, h)

cap_entries-count :
    (max_bytes total : ℕ) (es : List Utf8)
    → length (cap_entries max_bytes total es).logs ≤ length es
unfolding cap_entries
cap_entries-count max_bytes total [] = omega arith
cap_entries-count max_bytes total (e ∷ es) =
    let rest = cap_entries-count max_bytes (total + length e) es in ground (arith, rest)

cap_entries-all :
    (max_bytes total : ℕ) (es : List Utf8)
    → (cap_entries max_bytes total es).truncated ≡ false
    → (cap_entries max_bytes total es).logs ≡ es
unfolding cap_entries
cap_entries-all max_bytes total [] h = refl
cap_entries-all max_bytes total (e ∷ es) h = elim (Bool-cases (ltb max_bytes (total + length e))) [
  | inl over ↦ absurd (stopped (max_bytes - total) (rw over at h))
  | inr fits ↦
      rw fits (ap (λ r. e ∷ r) (cap_entries-all max_bytes (total + length e) es (rw fits at h)))
]
  where
    stopped : (r : ℕ) → (stop_at e r).truncated ≡ false → ⊥
    stopped r h = ground (arith, h)

kept_or_cut :
    (max_bytes : ℕ) (es : List Utf8)
    → ((cap_entries max_bytes 0 es).truncated ≡ true) ⊎ ((cap_entries max_bytes 0 es).logs ≡ es)
kept_or_cut max_bytes es = elim (Bool-cases (cap_entries max_bytes 0 es).truncated) [
  | inl cut ↦ inl cut
  | inr whole ↦ inr (cap_entries-all max_bytes 0 es whole)
]

length-first_entries : (n : ℕ) (es : List Utf8) → length (first_entries n es) ≤ n
length-first_entries zero es = omega arith
length-first_entries (suc n) [] = omega arith
length-first_entries (suc n) (e ∷ es) = omega (arith, length-first_entries n es)

-- The logs that are kept are within both caps, and if they are not marked as truncated they are all
-- the logs.
pub cap_logs-caps :
    (logs : List Utf8) (max_entries max_bytes : ℕ)
    → (length (cap_logs logs max_entries max_bytes).logs ≤ max_entries)
      × (total_length (cap_logs logs max_entries max_bytes).logs ≤ max_bytes)
      × (((cap_logs logs max_entries max_bytes).truncated ≡ true)
          ⊎ ((cap_logs logs max_entries max_bytes).logs ≡ logs))
unfolding cap_logs
cap_logs-caps logs max_entries max_bytes =
    let first = first_entries max_entries logs in
    let few = length-first_entries max_entries logs in
    let count = cap_entries-count max_bytes 0 first in
    let count_all = cap_entries-count max_bytes 0 logs in
    let bytes = cap_entries-le max_bytes 0 first (omega arith) in
    let bytes_all = cap_entries-le max_bytes 0 logs (omega arith) in
    let all_kept = kept_or_cut max_bytes logs in
    elim (Bool-cases (ltb max_entries (length logs))) [
      | inl over ↦ rw over (omega (arith, few, count), omega (arith, bytes), inl refl)
      | inr fits ↦ rw fits (ground (arith, fits, count_all), omega (arith, bytes_all), all_kept)
    ]
