-- ===== src/External/IndexMap.antt =====
-- The crate indexmap: a map that keeps its entries in a definite order. The interface states what
-- each operation does to the entries in that order; `list_map` shows that it can be met.
pub mod Entries
use xmrgateway.Prelude.{
  ℕ, zero, suc, ◌+◌, ◌≡◌, refl, Bool, Option, none, some, List, [], ◌∷◌, ◌++◌, Eq, ◌==◌, length,
  get_elem?, retain, arith, if◌then◌else◌,
}
use xmrgateway.Std.HashMap.{insert}

module _ {ℓ} {A : Type ℓ} where
  -- The last element in front of the others.
  abbrev pub last_first : A → List A → List A
  last_first x [] = x ∷ []
  last_first x (y ∷ ys) = elim (last_first y ys) [ [] ↦ x ∷ [] | z ∷ zs ↦ z ∷ x ∷ zs ]

  -- The list with its last element first, nothing for the empty list.
  abbrev pub rotate_last : List A → List A
  rotate_last [] = []
  rotate_last (x ∷ xs) = last_first x xs

  -- The list without the element at an index.
  abbrev pub remove_at : ℕ → List A → List A
  remove_at i [] = []
  remove_at zero (x ∷ xs) = xs
  remove_at (suc i) (x ∷ xs) = x ∷ remove_at i xs

module _ {ℓ κ} {K : Type ℓ} ⦃e : Eq K⦄ {V : Type κ} where
  -- The entry is swapped with the last one and popped off.
  abbrev pub swap_removed : K → List (K × V) → List (K × V)
  swap_removed k [] = []
  swap_removed k ((j, v) ∷ m) = if j == k then rotate_last m else (j, v) ∷ swap_removed k m

pub record IndexMap (K V : Type 0) ⦃e : Eq K⦄ : Type 1 where
  pub Map : Type 0
  pub entries : Map → List (K × V)
  pub empty : Map
  pub insert_entry : K → V → Map → Map
  pub swap_remove : K → Map → Map
  pub get_index : Map → ℕ → Option (K × V)
  pub entries_empty : entries empty ≡ []
  -- An existing key keeps its place and gets the new value; a new key comes last.
  pub entries_insert :
      (k : K) (v : V) (m : Map) → entries (insert_entry k v m) ≡ insert k v (entries m)
  pub entries_swap_remove :
      (k : K) (m : Map) → entries (swap_remove k m) ≡ swap_removed k (entries m)
  pub get_index_lem : (m : Map) (i : ℕ) → get_index m i ≡ get_elem? (entries m) i

abbrev pub list_map : (K V : Type 0) ⦃e : Eq K⦄ → IndexMap K V
list_map K V = record {
  Map = List (K × V);
  entries = λ m. m;
  empty = [];
  insert_entry = insert;
  swap_remove = swap_removed;
  get_index = get_elem?;
  entries_empty = refl;
  entries_insert = λ k v m. refl;
  entries_swap_remove = λ k m. refl;
  get_index_lem = λ m i. refl;
}
