-- ===== src/Control/Market/Laws.antt =====
-- About MarketContext.cpp: the items that a file loads.
use nf_engine.Prelude.{
  ℕ, suc, get_elem?, ◌%◌, ◌^◌, ◌≡◌, ◌≢◌, refl, sym, ◌∙◌, ◌⊎◌, inl, inr, List, [], ◌∷◌, map, Option,
  none, some, arith, ◌==◌, if◌then◌else◌, Bool-cases, Option-cases,
}
use nf_engine.Prelude.Assoc.{lookup, lookup-emplace}
use nf_engine.Prelude.Texts.{Text, codes}
use nf_engine.Control.Json.{JsonLibrary}
use nf_engine.Control.Market.{
  MarketItem, MarketContext, loaded, ◌>>=◌, read_item, add_item, load_items, load_snapshot,
  market_snapshot,
}

-- The items that are entered one after the other.
add_all : List MarketItem → List (ℕ × MarketItem) → List (ℕ × MarketItem)
add_all [] items = items
add_all (i ∷ more) items = add_all more (add_item i items)

-- The items of a file, each by its number, those with the number 0 left out.
abbrev pub keyed : List MarketItem → List (ℕ × MarketItem)
keyed [] = []
keyed (i ∷ more) = if i.item_id == 0 then keyed more else (i.item_id, i) ∷ keyed more

lookup-add_item :
    (i : MarketItem) (items : List (ℕ × MarketItem)) (k : ℕ)
    → lookup k (add_item i items) ≡ elim (lookup k items) [
      | some v ↦ some v
      | none ↦ if i.item_id == 0 then none else if i.item_id == k then some i else none
    ]
unfolding add_item
lookup-add_item i items k = ground (arith, lookup-emplace i.item_id k i items)

-- The first item of a number stays.
lookup-add_all :
    (more : List MarketItem) (items : List (ℕ × MarketItem)) (k : ℕ)
    → lookup k (add_all more items)
      ≡ elim (lookup k items) [ some v ↦ some v | none ↦ lookup k (keyed more) ]
unfolding add_all lookup
lookup-add_all [] items k = ground arith
lookup-add_all (i ∷ more) items k =
    ground (arith, lookup-add_all more (add_item i items) k, lookup-add_item i items k)

module _ (lib : JsonLibrary) where
  open lib use {Json, parse, is_object, elements, num_value}

  -- The entries that are objects, read in order; `none` if a field has another type.
  pub read_all : List Json → Option (List MarketItem)
  read_all [] = some []
  read_all (j ∷ more) =
      let rest = read_all more in
      if is_object j then read_item lib j >>= (λ i. rest >>= (λ is. some (i ∷ is))) else rest

  load_items-read_all :
      (entries : List Json) (items : List (ℕ × MarketItem))
      → load_items lib entries items ≡ (read_all entries >>= λ is. some (add_all is items))
  unfolding load_items read_all add_all
  load_items-read_all [] items = refl
  load_items-read_all (j ∷ more) items = elim (Bool-cases (is_object j)) [
    | inr skipped ↦ rw skipped (load_items-read_all more items)
    | inl object ↦ elim (Option-cases (read_item lib j)) [
      | inl threw ↦ rw (object, threw) refl
      | inr (i, read) ↦
          rw (object, read)
            (load_items-read_all more (add_item i items) ∙ regroup (read_all more) i items)
    ]
  ]
    where
      regroup :
          (rest : Option (List MarketItem)) (i : MarketItem) (items : List (ℕ × MarketItem))
          → (rest >>= λ is. some (add_all is (add_item i items)))
            ≡ (rest >>= (λ is. some (i ∷ is)) >>= λ is. some (add_all is items))
      regroup none i items = refl
      regroup (some is) i items = refl

-- What is found under a number has that number, which is not 0.
lookup-keyed :
    (is : List MarketItem) (k : ℕ) {v : MarketItem}
    → lookup k (keyed is) ≡ some v
    → (v.item_id ≡ k) × (k ≢ 0)
unfolding lookup
lookup-keyed [] k e = absurd (let d : ⊥ = ground arith in d)
lookup-keyed (i ∷ more) k {v = v} e = ground (arith, lookup-keyed more k {v = v})

-- What a table holds is among its values.
lookup-values :
    (m : List (ℕ × MarketItem)) (k : ℕ) {v : MarketItem}
    → lookup k m ≡ some v
    → (i : ℕ) × (get_elem? (map (λ entry. entry.1) m) i ≡ some v)
unfolding lookup
lookup-values [] k e = absurd (let d : ⊥ = ground arith in d)
lookup-values ((j, w) ∷ m) k {v = v} e = elim (Bool-cases (j == k)) [
  | inl same ↦ (0, let d : some w ≡ some v = ground arith in d)
  | inr other ↦
      let (i, found) =
        lookup-values m k {v = v} (let d : lookup k m ≡ some v = ground arith in d) in
      (suc i, found)
]

module _ (lib : JsonLibrary) (id : ℕ) (file : Text) where
  open lib use {Json, parse, elements, num_value}

  -- A market that was loaded: under each number the first item of the file that has it, none under
  -- 0, and every item of it is in the snapshot that answers a MarketDumpReqEvent.
  pub record Loaded (is : List MarketItem) (next : ℕ) (m : MarketContext) : Type 0 where
    pub counted : m.next_item_id ≡ next % 2 ^ 64
    pub first : (k : ℕ) → lookup k m.items ≡ lookup k (keyed is)
    pub shown :
        (k : ℕ) (v : MarketItem)
        → lookup k m.items ≡ some v
        → (v.item_id ≡ k) × ((k ≢ 0) × ((i : ℕ) × (get_elem? (market_snapshot m).items i ≡ some v)))

  -- A market file that parses, with the two numbers and an array of items: loading it throws exactly
  -- if a field of an item has another type, and otherwise the market has under each number the
  -- first item of the file with that number, none under 0, and shows all of them in its snapshot.
  pub load_snapshot_lem :
      (j : Json) (version next : ℕ) (entries : List Json)
      → parse file ≡ some j
      → num_value j (codes "version") 1 ≡ some version
      → num_value j (codes "next_item_id") 1 ≡ some next
      → elements j (codes "items") ≡ some entries
      → ((read_all lib entries ≡ none) × (load_snapshot lib id (some file) ≡ none))
        ⊎ ((is : List MarketItem) × ((read_all lib entries ≡ some is)
              × ((m : MarketContext) × ((load_snapshot lib id (some file) ≡ some m)
                    × Loaded is next m))))
  unfolding load_snapshot market_snapshot
  load_snapshot_lem j version next entries parsed v n e =
      elim (Option-cases (read_all lib entries)) [
        | inl threw ↦ inl (
          threw,
          rw (load_snapshot, parsed, v, n, e, load_items-read_all lib entries [], threw) refl,
        )
        | inr (is, read) ↦ inr (
          is,
          (
            read,
            (
              loaded id next (add_all is []),
              (
                rw (load_snapshot, parsed, v, n, e, load_items-read_all lib entries [], read) refl,
                record {
                  counted = refl;
                  first = λ k. lookup-add_all is [] k;
                  shown = λ k item found.
                      let own =
                        lookup-keyed is k {v = item} (sym (lookup-add_all is [] k) ∙ found) in
                      (own.0, (own.1, lookup-values (add_all is []) k {v = item} found));
                },
              ),
            ),
          ),
        )
      ]
