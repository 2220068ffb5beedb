-- ===== src/Control/Market.antt =====
-- serverd/execution/market/MarketContext.cpp: the items of a shard's market, loaded from its file, and
-- the answer to a MarketDumpReqEvent. What the file holds is an argument.
pub mod Laws
use nf_engine.Prelude.{
  ℕ, ◌%◌, ◌^◌, List, [], ◌∷◌, map, Bool, Option, none, some, ◌==◌, if◌then◌else◌,
}
use nf_engine.Prelude.Assoc.{emplace, lookup}
use nf_engine.Prelude.Texts.{Text, codes}
use nf_engine.Control.Json.{JsonLibrary}

pub record MarketItem : Type 0 where
  pub item_id : ℕ
  pub seller_session_id : ℕ
  pub name : Text
  pub price : ℕ
  pub quantity : ℕ
  pub created_at : ℕ

pub record MarketInfo : Type 0 where
  pub market_id : ℕ
  pub items : List MarketItem

pub record MarketContext : Type 0 where
  pub market_id : ℕ
  pub next_item_id : ℕ
  pub items : List (ℕ × MarketItem)

abbrev pub empty_market : ℕ → MarketContext
empty_market id = record { market_id = id; next_item_id = 1; items = [] }

abbrev pub loaded : ℕ → ℕ → List (ℕ × MarketItem) → MarketContext
loaded id next items = record { market_id = id; next_item_id = next % 2 ^ 64; items = items }

infixl 5 ◌>>=◌
abbrev pub ◌>>=◌ : {A B : Type 0} → Option A → (A → Option B) → Option B
none >>= f = none
some a >>= f = f a

-- An item with the number 0 is skipped, and one whose number is taken changes nothing.
unfoldable pub add_item : MarketItem → List (ℕ × MarketItem) → List (ℕ × MarketItem)
unfolding emplace lookup
add_item item items = if item.item_id == 0 then items else emplace item.item_id item items

module _ (lib : JsonLibrary) where
  open lib use {Json, parse, is_object, elements, text_value, num_value}

  -- The fields of an entry, by their keys; a `uint32_t` keeps 32 bits.
  unfoldable pub read_item : Json → Option MarketItem
  read_item j = do
    id ← num_value j (codes "item_id") 0
    seller ← num_value j (codes "seller_session_id") 0
    name ← text_value j (codes "name") (codes "")
    price ← num_value j (codes "price") 0
    quantity ← num_value j (codes "quantity") 0
    created ← num_value j (codes "created_at_sec") 0
    some (record {
      item_id = id % 2 ^ 64;
      seller_session_id = seller % 2 ^ 64;
      name = name;
      price = price % 2 ^ 64;
      quantity = quantity % 2 ^ 32;
      created_at = created % 2 ^ 64;
    })

  -- The loop over the entries of the file.
  unfoldable pub load_items : List Json → List (ℕ × MarketItem) → Option (List (ℕ × MarketItem))
  unfolding read_item add_item
  load_items [] items = some items
  load_items (j ∷ more) items =
      let skipped = load_items more items in
      let read = read_item j >>= λ item. load_items more (add_item item items) in
      if is_object j then read else skipped

  -- `loadSnapshot`, of the bytes of the file, or without one.
  unfoldable pub load_snapshot : ℕ → Option Text → Option MarketContext
  unfolding load_items
  load_snapshot id none = some (empty_market id)
  load_snapshot id (some file) = elim (parse file) [
    | none ↦ some (empty_market id)
    | some j ↦ do
      version ← num_value j (codes "version") 1
      next ← num_value j (codes "next_item_id") 1
      elim (elements j (codes "items")) [
        | none ↦ some (loaded id next [])
        | some entries ↦ load_items entries [] >>= λ items. some (loaded id next items)
      ]
  ]

-- `snapshot`, with which `marketDumpReqEvent` fulfills the promise of its event.
unfoldable pub market_snapshot : MarketContext → MarketInfo
market_snapshot m = record { market_id = m.market_id; items = map (λ entry. entry.1) m.items }
