-- ===== src/Policy/Select/Rank.antt =====
-- The order of selections: by anonymity, then by the number of badges, then by the types' names.
use Prim.Native.Nat.{compare, Ordering}
use Prim.Native.Char.{code}
use Prim.Native.String
use minister.Common.{
  ℕ, ◌+◌, ◌-◌, ◌/◌, ◌%◌, String, Option, none, some, List, [], ◌∷◌, ◌++◌, map, if◌then◌else◌, ltb,
  length, take, string_eq, includes, add, Entries, lookup,
}

pub record Selection : Type 0 where
  pub badge_ids : List String
  pub types : List String

abbrev pub max_alternatives : ℕ
max_alternatives = 16

-- The UTF-16 code units of a text, by which JavaScript orders it.
unfoldable pub units : ℕ → List ℕ → List ℕ
units c rest =
    if ltb c 0x10000
    then c ∷ rest
    else (0xd800 + (c - 0x10000) / 0x400) ∷ (0xdc00 + (c - 0x10000) % 0x400) ∷ rest

unfoldable pub code_units : String → List ℕ
unfolding units
code_units String.[] = []
code_units (String.◌∷◌ c s) = units (code c) (code_units s)

unfoldable pub compare_units : List ℕ → List ℕ → Ordering
compare_units [] [] = Ordering.eq
compare_units [] (y ∷ ys) = Ordering.lt
compare_units (x ∷ xs) [] = Ordering.gt
compare_units (x ∷ xs) (y ∷ ys) =
    let rest = compare_units xs ys in
    elim (compare x y) [
      | Ordering.lt ↦ Ordering.lt
      | Ordering.gt ↦ Ordering.gt
      | Ordering.eq ↦ rest
    ]

unfoldable pub compare_texts : String → String → Ordering
unfolding code_units compare_units
compare_texts s t = compare_units (code_units s) (code_units t)

-- `xs.sort(cmp)`: the sort is stable.
module _ {ℓ} {A : Type ℓ} (cmp : A → A → Ordering) where
  unfoldable pub insert_sorted : A → List A → List A
  insert_sorted x [] = x ∷ []
  insert_sorted x (y ∷ ys) =
      let further = insert_sorted x ys in
      elim (cmp x y) [ Ordering.gt ↦ y ∷ further | _ ↦ x ∷ y ∷ ys ]

  unfoldable pub sort_by : List A → List A
  unfolding insert_sorted
  sort_by [] = []
  sort_by (x ∷ xs) = insert_sorted x (sort_by xs)

abbrev pub count_of : Option ℕ → ℕ
count_of none = 0
count_of (some n) = n

-- The holder counts of the types, smallest first.
unfoldable pub anonymity_vector : List String → Entries String ℕ → List ℕ
unfolding sort_by lookup
anonymity_vector types counts = sort_by compare (map (λ t. count_of (lookup counts t)) types)

-- A place past the end counts as infinity; the larger number is the better.
unfoldable pub compare_vectors : List ℕ → List ℕ → Ordering
compare_vectors [] [] = Ordering.eq
compare_vectors [] (y ∷ ys) = Ordering.lt
compare_vectors (x ∷ xs) [] = Ordering.gt
compare_vectors (x ∷ xs) (y ∷ ys) =
    let rest = compare_vectors xs ys in
    elim (compare y x) [
      | Ordering.lt ↦ Ordering.lt
      | Ordering.gt ↦ Ordering.gt
      | Ordering.eq ↦ rest
    ]

-- `xs.join(" ")`
unfoldable pub join : List String → String
join [] = ""
join (x ∷ []) = x
join (x ∷ y ∷ ys) = String.◌++◌ x (String.◌∷◌ " " (join (y ∷ ys)))

abbrev pub or_else : Ordering → Ordering → Ordering
or_else Ordering.eq next = next
or_else found next = found

unfoldable pub sorted_key : List String → String
unfolding sort_by compare_texts join
sorted_key types = join (sort_by compare_texts types)

unfoldable pub compare_selections : Entries String ℕ → Selection → Selection → Ordering
unfolding anonymity_vector compare_vectors sorted_key
compare_selections counts a b =
    or_else (compare_vectors (anonymity_vector a.types counts) (anonymity_vector b.types counts)) (
      or_else (compare (length a.badge_ids) (length b.badge_ids))
        (compare_texts (sorted_key a.types) (sorted_key b.types)))

unfoldable pub best_from : Entries String ℕ → Selection → List Selection → Selection
best_from counts best [] = best
best_from counts best (s ∷ rest) =
    best_from counts (elim (compare_selections counts s best) [ Ordering.lt ↦ s | _ ↦ best ]) rest

unfoldable pub best_of : Entries String ℕ → List Selection → Option Selection
unfolding best_from compare_selections
best_of counts [] = none
best_of counts (s ∷ rest) = some (best_from counts s rest)

-- The union of two sets: the values of the second are added one by one.
abbrev pub union : List String → List String → List String
union xs [] = xs
union xs (y ∷ ys) = union (add y xs) ys

abbrev pub merge_into : List Selection → Selection → Selection
merge_into [] s = s
merge_into (part ∷ parts) s =
    merge_into parts
      (record { badge_ids = union s.badge_ids part.badge_ids; types = union s.types part.types })

unfoldable pub merge_selections : List Selection → Selection
merge_selections parts = merge_into parts (record { badge_ids = []; types = [] })

unfoldable pub sort_selections : Entries String ℕ → List Selection → List Selection
unfolding sort_by compare_selections
sort_selections counts = sort_by (compare_selections counts)

-- Of the selections with one set of ids the first stays.
unfoldable pub dedupe_from : List String → List Selection → List Selection
dedupe_from seen [] = []
dedupe_from seen (s ∷ rest) =
    let key = sorted_key s.badge_ids in
    let skipped = dedupe_from seen rest in
    let kept = s ∷ dedupe_from (seen ++ key ∷ []) rest in
    if includes key seen then skipped else kept

unfoldable pub dedupe_selections : List Selection → List Selection
unfolding dedupe_from sorted_key
dedupe_selections selections = dedupe_from [] selections

unfoldable pub rank_and_cap : Entries String ℕ → List Selection → List Selection
unfolding sort_selections dedupe_selections
rank_and_cap counts selections =
    take max_alternatives (dedupe_selections (sort_selections counts selections))
