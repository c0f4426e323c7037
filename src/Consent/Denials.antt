-- ===== src/Consent/Denials.antt =====
-- When the consent limiter refuses a source: only for requests of that source itself.
use snow_mcp.Common.{
  ℕ, ◌+◌, ◌≤◌, ◌<◌, ◌≡◌, refl, String, Bool, true, false, some, List, [], ◌∷◌, arith, Option-cases,
  Bool-cases, str_eq, inl, inr, str_eq_iff, All, filter_by, if◌then◌else◌, length, leb, ltb,
}
use snow_mcp.Consent.{
  Entry, find_window, set_window, prune, evict_oldest, make_room, fresh, allow, max_per_window,
  max_keys,
}
use snow_mcp.Consent.Size.{Request, find_window-key, allow_all}

abbrev one_if : Bool → ℕ
one_if true = 1
one_if false = 0

-- How many requests of the sequence come from a source and are allowed.
unfoldable pub allowed_of : String → List Request → List Entry → ℕ
allowed_of source [] es = 0
allowed_of source (r ∷ rs) es =
    one_if (if str_eq r.key source then (allow r.key r.now es).0 else false)
    + allowed_of source rs (allow r.key r.now es).1

-- Every entry of the source counts at most `n`.
abbrev EntryBelow : String → ℕ → Entry → Type 0
EntryBelow source n e = e.key ≡ source → e.count ≤ n

abbrev Below : String → ℕ → List Entry → Type 0
Below source n es = All (EntryBelow source n) es

filter_by-Below :
    (source : String) (n : ℕ) (p : Entry → Bool) (es : List Entry)
    → Below source n es
    → Below source n (filter_by p es)
filter_by-Below source n p [] h = tt
filter_by-Below source n p (e ∷ es) (h, hs) =
    let rest = filter_by-Below source n p es hs in by_test (p e) rest
  where
    by_test :
        (b : Bool)
        → Below source n (filter_by p es)
        → Below source n (if b then e ∷ filter_by p es else filter_by p es)
    by_test true rest = (h, rest)
    by_test false rest = rest

evict_oldest-Below :
    (source : String) (n : ℕ) (es : List Entry)
    → Below source n es
    → Below source n (evict_oldest es)
unfolding evict_oldest
evict_oldest-Below source n [] h = tt
evict_oldest-Below source n (e ∷ es) (h, hs) = elim (Bool-cases (leb max_keys (length (e ∷ es)))) [
  | inl t ↦ rw t (evict_oldest-Below source n es hs)
  | inr t ↦ rw t (h, hs)
]

make_room-Below :
    (source : String) (n now : ℕ) (es : List Entry)
    → Below source n es
    → Below source n (make_room now es)
unfolding make_room prune
make_room-Below source n now es h = elim (Bool-cases (leb max_keys (length es))) [
  | inl t ↦ rw t (evict_oldest-Below source n (prune now es) (filter_by-Below source n _ es h))
  | inr t ↦ rw t h
]

set_window-Below :
    (source : String) (n : ℕ) (w : Entry) (es : List Entry)
    → EntryBelow source n w
    → Below source n es
    → Below source n (set_window w es)
unfolding set_window
set_window-Below source n w [] k h = (k, tt)
set_window-Below source n w (e ∷ es) k (h, hs) = elim (Bool-cases (str_eq e.key w.key)) [
  | inl t ↦ rw t (k, hs)
  | inr t ↦ rw t (h, set_window-Below source n w es k hs)
]

find_window-Below :
    (source : String) (n : ℕ) (w : Entry) (es : List Entry)
    → Below source n es
    → find_window source es ≡ some w
    → w.count ≤ n
unfolding find_window
find_window-Below source n w [] h e = cc
find_window-Below source n w (x ∷ es) (h, hs) e =
    ground (arith, h, str_eq_iff x.key source, find_window-Below source n w es hs)

Below-more :
    (source : String) (n m : ℕ) (es : List Entry) → n ≤ m → Below source n es → Below source m es
Below-more source n m [] le h = tt
Below-more source n m (e ∷ es) le (h, hs) =
    ((λ same. omega (arith, h same)), Below-more source n m es le hs)

-- What a request of `key` with this answer adds to the count of the source.
abbrev added : String → String → Bool → ℕ
added source key answer = one_if (if str_eq key source then answer else false)

counted-Below :
    (source key : String) (n : ℕ) (w : Entry) (es : List Entry)
    → w.key ≡ key
    → (key ≡ source → w.count ≤ n + 1)
    → Below source n es
    → Below source (n + added source key true) (set_window w es)
counted-Below source key n w es same le h =
    set_window-Below source (n + added source key true) w es
      (λ own. by_test (str_eq key source) refl own)
      (Below-more source n (n + added source key true) es (omega arith) h)
  where
    by_test :
        (b : Bool) → str_eq key source ≡ b → w.key ≡ source → w.count ≤ n + added source key true
    by_test b e own =
        let k : key ≡ source = cc (same, own) in
        let t = str_eq_iff key source in ground (arith, le k, t, k)

live-Below :
    (source key : String) (n : ℕ) (w : Entry) (es : List Entry)
    → find_window key es ≡ some w
    → Below source n es
    → key ≡ source
    → w.count ≤ n
live-Below source key n w es e h own = find_window-Below source n w es h (rw (← own) e)

allow-Below :
    (source key : String) (n now : ℕ) (es : List Entry)
    → Below source n es
    → Below source (n + added source key (allow key now es).0) (allow key now es).1
unfolding allow
allow-Below source key n now es h = elim (Option-cases (find_window key es)) [
  | inl e ↦ rw e (
      counted-Below source key n (fresh key now) (make_room now es) refl (λ own. omega arith)
        (make_room-Below source n now es h))
  | inr (w, e) ↦
      let same = find_window-key key w es e in
      let live = live-Below source key n w es e h in
      rw e (by_time w same live (ltb now w.reset_at) (leb max_per_window w.count))
]
  where
    by_time :
        (w : Entry)
        → w.key ≡ key
        → (key ≡ source → w.count ≤ n)
        → (live_window full : Bool)
        → let answer : Bool × List Entry =
            if live_window
            then (if full
                then (false, es)
                else (true, set_window (record w { count = w.count + 1 }) es))
            else (true, set_window (fresh key now) es) in
          Below source (n + added source key answer.0) answer.1
    by_time w same live true true =
        Below-more source n (n + added source key false) es (omega arith) h
    by_time w same live true false =
        counted-Below source key n (record w { count = w.count + 1 }) es same
          (λ own. omega (arith, live own)) h
    by_time w same live false full =
        counted-Below source key n (fresh key now) es refl (λ own. omega arith) h

allow_all-Below :
    (source : String) (rs : List Request) (n : ℕ) (es : List Entry)
    → Below source n es
    → Below source (n + allowed_of source rs es) (allow_all rs es)
unfolding allow_all allowed_of
allow_all-Below source [] n es h = Below-more source n (n + 0) es (omega arith) h
allow_all-Below source (r ∷ rs) n es h =
    let first = allow-Below source r.key n r.now es h in
    let m = n + added source r.key (allow r.key r.now es).0 in
    let rest = allow_all-Below source rs m (allow r.key r.now es).1 first in
    let after = allowed_of source rs (allow r.key r.now es).1 in
    Below-more source (m + after) (n + (added source r.key (allow r.key r.now es).0 + after))
      (allow_all rs (allow r.key r.now es).1) (omega arith) rest

denied-window :
    (key : String) (now : ℕ) (es : List Entry)
    → (allow key now es).0 ≡ false
    → (w : Entry) × (find_window key es ≡ some w) × (now < w.reset_at) × (max_per_window ≤ w.count)
unfolding allow
denied-window key now es h = elim (Option-cases (find_window key es)) [
  | inl e ↦ absurd (ground (arith, e))
  | inr (w, e) ↦ (w, e, ground (arith, e), ground (arith, e))
]

-- From an empty map, a source is refused only if at least 30 earlier requests from it were allowed:
-- no other source can lock it out, even by filling the map.
pub denied-allowed_of :
    (source : String) (now : ℕ) (rs : List Request)
    → (allow source now (allow_all rs [])).0 ≡ false
    → max_per_window ≤ allowed_of source rs []
denied-allowed_of source now rs h =
    let (w, e, live, full) = denied-window source now (allow_all rs []) h in
    let below = allow_all-Below source rs 0 [] tt in
    omega (arith, full, find_window-Below source _ w (allow_all rs []) below e)
