-- ===== src/Auctioneerd/Search.antt =====
-- sort.Strings and sort.Search as selectWinners uses them on the providers that an auction is targeting.
-- Texts are ordered by their bytes. Of the sorted list only its value counts, not the algorithm; the
-- search is sort.Search's.
pub mod Agrees
use broker_core.Base.{
  ℕ, zero, suc, ◌+◌, ◌/◌, String, Bool, true, false, Option, none, some, List, [], ◌∷◌, ◌&&◌, ltb,
  length, str_eq, if◌then◌else◌,
}
use broker_core.Base.TextOrder.{text_le}
use broker_core.Auctioneerd.Heap.{get_elem?}

unfoldable pub insert : String → List String → List String
insert s [] = s ∷ []
insert s (t ∷ ts) = let rest = insert s ts in if text_le s t then s ∷ t ∷ ts else t ∷ rest

-- sort.Strings
unfoldable pub sort : List String → List String
sort [] = []
sort (s ∷ ss) = insert s (sort ss)

-- The loop of sort.Search; the distance from `i` to `j` is the fuel.
unfoldable pub search_from : ℕ → (ℕ → Bool) → ℕ → ℕ → ℕ
search_from zero f i j = i
search_from (suc k) f i j = elim (ltb i j) [
  | false ↦ i
  | true ↦ elim (f ((i + j) / 2)) [
    | false ↦ search_from k f ((i + j) / 2 + 1) j
    | true ↦ search_from k f i ((i + j) / 2)
  ]
]

-- sort.Search
unfoldable pub search : ℕ → (ℕ → Bool) → ℕ
search n f = search_from n f 0 n

-- providers[i] >= s; the search asks below the length only.
unfoldable pub at_least : List String → String → ℕ → Bool
at_least ps s i = elim (get_elem? ps i) [ none ↦ true | some p ↦ text_le s p ]

unfoldable pub is_at : List String → String → ℕ → Bool
is_at ps s i = elim (get_elem? ps i) [ none ↦ false | some p ↦ str_eq p s ]

-- The filter's test, on the sorted providers.
unfoldable pub is_targeted : List String → String → Bool
is_targeted ps s = let i = search (length ps) (at_least ps s) in ltb i (length ps) && is_at ps s i
