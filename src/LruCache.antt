-- ===== src/LruCache.antt =====
-- lrucache.go: the metadata cache, split into shards, each a bounded list in order of use.
--
-- A shard keeps a Go map from keys to list elements beside the list. Elements are pointers: each has
-- an `id`, the map holds ids, and an element is read through its id. Every reading of the clock is an
-- argument of the operation that makes it. Sizes are never negative.
pub mod Order
pub mod Valid
pub mod Reads
pub mod Evict
pub mod Run
pub mod Shards
mod Tests
use Prim.Native.String.{String}
use text.Mathlib.Text.{◌==◌ as str_eq}
use gostream.Prelude.{
  ℕ, zero, suc, ◌+◌, ◌-◌, ◌*◌, ◌/◌, ◌==◌, ltb, if◌then◌else◌, Bool, true, false, ◌&&◌, List, [],
  ◌∷◌, length, map, Option, none, some,
}

pub record Element {ℓ} (V : Type ℓ) : Type ℓ where
  pub id : ℕ
  pub key : String
  pub value : V
  pub size : ℕ
  pub expires_at : ℕ
  pub last_promoted : ℕ

pub record SimpleLruCache {ℓ} (V : Type ℓ) : Type ℓ where
  pub capacity : ℕ
  pub current_size : ℕ
  pub ttl : ℕ
  pub items : String → Option ℕ
  pub order : List (Element V)
  pub next_id : ℕ

abbrev pub default_capacity : ℕ
default_capacity = 500 * 1024 * 1024

abbrev pub day : ℕ
day = 24 * 3600 * 1_000_000_000

abbrev pub assign : (String → Option ℕ) → String → Option ℕ → String → Option ℕ
assign m k v j = if str_eq j k then v else m j

module _ {ℓ} {V : Type ℓ} where
  -- The element behind a pointer.
  unfoldable pub find_id : ℕ → List (Element V) → Option (Element V)
  find_id i [] = none
  find_id i (x ∷ xs) = if x.id == i then some x else find_id i xs

  -- `order.Remove(elem)`
  unfoldable pub remove_id : ℕ → List (Element V) → List (Element V)
  remove_id i [] = []
  remove_id i (x ∷ xs) = if x.id == i then xs else x ∷ remove_id i xs

  -- `order.Back()`
  unfoldable pub back : List (Element V) → Option (Element V)
  back [] = none
  back (x ∷ xs) = elim xs [ [] ↦ some x | y ∷ ys ↦ back xs ]

  unfoldable pub new_simple_lru_cache : ℕ → ℕ → SimpleLruCache V
  new_simple_lru_cache capacity ttl = record {
    capacity = if capacity == 0 then default_capacity else capacity;
    current_size = 0;
    ttl = if ttl == 0 then day else ttl;
    items = λ k. none;
    order = [];
    next_id = 0;
  }

  unfoldable pub remove_element : SimpleLruCache V → Element V → SimpleLruCache V
  remove_element c elem = record c {
    items = assign c.items elem.key none;
    order = remove_id elem.id c.order;
    current_size = c.current_size - elem.size;
  }

  -- `order.MoveToFront(elem)`, with what the caller writes into the entry.
  abbrev pub promote : SimpleLruCache V → Element V → List (Element V)
  promote c elem = elem ∷ remove_id elem.id c.order

  abbrev pub element : SimpleLruCache V → String → Option (Element V)
  element c key = elim (c.items key) [ none ↦ none | some i ↦ find_id i c.order ]

  -- `now` is the clock at the test of the expiry, `promoted` at the promotion.
  unfoldable pub get : SimpleLruCache V → String → ℕ → ℕ → SimpleLruCache V × Option V
  get c key now promoted = elim (element c key) [
    | none ↦ (c, none)
    | some elem ↦ if ltb elem.expires_at now then (remove_element c elem, none) else (
      record c { order = promote c (record elem { last_promoted = promoted }) },
      some elem.value,
    )
  ]

  -- One round removes one element, so as many rounds as there are elements are enough.
  unfoldable pub make_room : ℕ → SimpleLruCache V → ℕ → SimpleLruCache V
  make_room zero c size = c
  make_room (suc fuel) c size = elim (back c.order) [
    | none ↦ c
    | some oldest ↦
        let rest = make_room fuel (remove_element c oldest) size in
        if ltb c.capacity (c.current_size + size) then rest else c
  ]

  unfoldable pub push_new : SimpleLruCache V → String → V → ℕ → ℕ → ℕ → SimpleLruCache V
  push_new c key value size now promoted = record c {
    items = assign c.items key (some c.next_id);
    order =
        record {
          id = c.next_id;
          key = key;
          value = value;
          size = size;
          expires_at = now + c.ttl;
          last_promoted = promoted;
        }
        ∷ c.order;
    current_size = c.current_size + size;
    next_id = suc c.next_id;
  }

  unfoldable pub put : SimpleLruCache V → String → V → ℕ → ℕ → ℕ → SimpleLruCache V
  unfolding make_room push_new
  put c key value size now promoted = elim (element c key) [
    | some elem ↦ record c {
      current_size = c.current_size - elem.size + size;
      order = promote c (record elem {
        value = value;
        size = size;
        expires_at = now + c.ttl;
        last_promoted = promoted;
      });
    }
    | none ↦ push_new (make_room (length c.order) c size) key value size now promoted
  ]

  unfoldable pub delete : SimpleLruCache V → String → SimpleLruCache V
  delete c key = elim (element c key) [ none ↦ c | some elem ↦ remove_element c elem ]

  unfoldable pub clear : SimpleLruCache V → SimpleLruCache V
  clear c = record c { items = λ k. none; order = []; current_size = 0 }

  unfoldable pub expired : ℕ → List (Element V) → List (Element V)
  expired now [] = []
  expired now (x ∷ xs) = if ltb x.expires_at now then x ∷ expired now xs else expired now xs

  unfoldable pub remove_all : SimpleLruCache V → List (Element V) → SimpleLruCache V
  remove_all c [] = c
  remove_all c (x ∷ xs) = remove_all (remove_element c x) xs

  unfoldable pub cleanup_expired : SimpleLruCache V → ℕ → SimpleLruCache V × ℕ
  unfolding expired remove_all
  cleanup_expired c now =
      let to_remove = expired now c.order in (remove_all c to_remove, length to_remove)
