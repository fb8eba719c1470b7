-- ===== src/LruCache/Evict.antt =====
-- What `Put` evicts for a new key: the least recently used entries, and no more than it must.
use Prim.Native.String.{String}
use text.Mathlib.Text.{◌==◌ as str_eq}
use mathlib.Core.List.{append-nil, append_assoc}
use gostream.Prelude.{
  ℕ, zero, suc, ◌+◌, ◌≤◌, ◌<◌, ◌≡◌, refl, ap, sym, ◌∙◌, ltb, Bool-cases, Option-cases, List, [],
  ◌∷◌, ◌++◌, none, some, inl, inr, subst, arith, length, length-append,
}
use gostream.LruCache.{
  Element, SimpleLruCache, remove_id, back, element, remove_element, make_room, put,
}
use gostream.LruCache.Order.{find_key, total_size, back_lem}
use gostream.LruCache.Valid.{
  IsValid, remove_element-IsValid, element-find_key, element_found, promote-IsValid,
  push_new-IsValid,
}

module _ {ℓ} {V : Type ℓ} where
  -- The entry that was used last among the evicted ones would not have fitted.
  abbrev Blocks : SimpleLruCache V → ℕ → List (Element V) → Type 0
  Blocks c size [] = Unit
  Blocks c size (d ∷ ds) = c.capacity < c.current_size + d.size + size

  -- `c'` is `c` without the entries `dropped` at the end of its order.
  pub record Evicts (c c' : SimpleLruCache V) (size : ℕ) (dropped : List (Element V)) : Type ℓ where
    pub valid : IsValid c'
    pub split : c'.order ++ dropped ≡ c.order
    pub fits : c.capacity < c'.current_size + size → c'.order ≡ []
    pub blocks : Blocks c' size dropped
    pub same_capacity : c'.capacity ≡ c.capacity
    pub same_ttl : c'.ttl ≡ c.ttl
    pub same_next_id : c'.next_id ≡ c.next_id

  stays :
      (c : SimpleLruCache V) (size : ℕ)
      → IsValid c
      → (c.capacity < c.current_size + size → c.order ≡ [])
      → Evicts c c size []
  stays c size v fits = record {
    valid = v;
    split = append-nil c.order;
    fits = fits;
    blocks = tt;
    same_capacity = refl;
    same_ttl = refl;
    same_next_id = refl;
  }

  back-none : (l : List (Element V)) → back l ≡ none → l ≡ []
  unfolding back
  back-none [] e = refl
  back-none (x ∷ []) e = absurd (cc)
  back-none (x ∷ y ∷ ys) e = absurd (not-none (y ∷ ys) (λ q. cc) e)
    where
      not-none : (l : List (Element V)) → (l ≡ [] → ⊥) → back l ≡ none → ⊥
      not-none [] h q = h refl
      not-none (z ∷ []) h q = cc
      not-none (z ∷ w ∷ ws) h q = not-none (w ∷ ws) (λ r. cc) q

  total_size-append :
      (xs ys : List (Element V)) → total_size (xs ++ ys) ≡ total_size xs + total_size ys
  unfolding total_size
  total_size-append [] ys = omega arith
  total_size-append (x ∷ xs) ys = omega (arith, total_size-append xs ys)

  -- One round: the back is removed, and the later rounds go on from there.
  Evicts-step :
      (c c' : SimpleLruCache V) (oldest : Element V) (size : ℕ) (dropped : List (Element V))
      → IsValid c
      → back c.order ≡ some oldest
      → c.capacity < c.current_size + size
      → Evicts (remove_element c oldest) c' size dropped
      → Evicts c c' size (dropped ++ oldest ∷ [])
  unfolding remove_element total_size
  Evicts-step c c' oldest size dropped v last over ev =
      let rest = (back_lem c.order v.distinct last).1 in
      let split : c'.order ++ (dropped ++ oldest ∷ []) ≡ c.order =
        sym (append_assoc c'.order dropped (oldest ∷ []))
        ∙ ap (λ l. l ++ oldest ∷ []) ev.split
        ∙ rest in
      record {
        valid = ev.valid;
        split = split;
        fits = ev.fits;
        blocks = blocked dropped split ev.blocks;
        same_capacity = ev.same_capacity;
        same_ttl = ev.same_ttl;
        same_next_id = ev.same_next_id;
      }
    where
      blocked :
          (ds : List (Element V))
          → c'.order ++ (ds ++ oldest ∷ []) ≡ c.order
          → Blocks c' size ds
          → Blocks c' size (ds ++ oldest ∷ [])
      blocked [] e b = omega (
        arith,
        ev.valid.sized,
        v.sized,
        ap total_size e,
        total_size-append c'.order (oldest ∷ []),
        ev.same_capacity,
      )
      blocked (d ∷ ds) e b = b

  pub make_room-Evicts :
      (fuel : ℕ) (c : SimpleLruCache V) (size : ℕ)
      → length c.order ≤ fuel
      → IsValid c
      → (dropped : List (Element V)) × Evicts c (make_room fuel c size) size dropped
  unfolding make_room remove_element
  make_room-Evicts zero c size h v = ([], stays c size v (λ _. empty c.order h))
    where
      empty : (l : List (Element V)) → length l ≤ 0 → l ≡ []
      empty [] h = refl
      empty (x ∷ xs) h = absurd (omega arith)
  make_room-Evicts (suc fuel) c size h v = elim (Option-cases (back c.order)) [
    | inl e ↦ ([], rw (e, make_room) (stays c size v (λ _. back-none c.order e)))
    | inr (oldest, e) ↦ elim (Bool-cases (ltb c.capacity (c.current_size + size))) [
      | inl over ↦
          let (found, rest) = back_lem c.order v.distinct e in
          let shorter : length (remove_element c oldest).order ≤ fuel =
            omega
              (arith, ap length rest, length-append (remove_id oldest.id c.order) (oldest ∷ [])) in
          let (dropped, ev) =
            make_room-Evicts fuel (remove_element c oldest) size shorter
              (remove_element-IsValid c oldest v found) in
          (
            dropped ++ oldest ∷ [],
            rw (e, make_room, over) (Evicts-step c _ oldest size dropped v e (ground arith) ev),
          )
      | inr fits ↦ ([], rw (e, make_room, fits) (stays c size v (λ l. absurd (ground arith))))
    ]
  ]

  find_key-prefix :
      (k : String) (xs ys : List (Element V)) → find_key k (xs ++ ys) ≡ none → find_key k xs ≡ none
  unfolding find_key
  find_key-prefix k [] ys h = refl
  find_key-prefix k (x ∷ xs) ys h = elim (Bool-cases (str_eq x.key k)) [
    | inl t ↦ absurd (ground arith)
    | inr t ↦ rw t (find_key-prefix k xs ys (rw t at h))
  ]

  -- What `Put` does with a key that the shard does not hold.
  pub record PutNew (c c' : SimpleLruCache V) (key : String) (value : V) (size : ℕ) : Type ℓ where
    pub room : SimpleLruCache V
    pub dropped : List (Element V)
    pub evicts : Evicts c room size dropped
    pub front : Element V
    pub front_key : front.key ≡ key
    pub front_value : front.value ≡ value
    pub front_size : front.size ≡ size
    pub order : c'.order ≡ front ∷ room.order
    pub capacity : c'.capacity ≡ c.capacity

  -- Storing a key that the shard does not hold puts the new entry at the front, keeps the rest in
  -- order, and evicts from the back exactly as many entries as it must: the longest part of the order
  -- that fits beside the new entry stays.
  pub put-PutNew :
      (c : SimpleLruCache V) (key : String) (value : V) (size now promoted : ℕ)
      → IsValid c
      → element c key ≡ none
      → PutNew c (put c key value size now promoted) key value size
  unfolding put
  put-PutNew c key value size now promoted v absent =
      let (dropped, ev) = make_room-Evicts (length c.order) c size (omega arith) v in
      rw (absent, put)
        (record {
          room = make_room (length c.order) c size;
          dropped = dropped;
          evicts = ev;
          front = record {
            id = (make_room (length c.order) c size).next_id;
            key = key;
            value = value;
            size = size;
            expires_at = now + (make_room (length c.order) c size).ttl;
            last_promoted = promoted;
          };
          front_key = refl;
          front_value = refl;
          front_size = refl;
          order = refl;
          capacity = ev.same_capacity;
        })

  -- Storing a key keeps the invariant, whether the shard holds the key or not.
  pub put-IsValid :
      (c : SimpleLruCache V) (key : String) (value : V) (size now promoted : ℕ)
      → IsValid c
      → IsValid (put c key value size now promoted)
  unfolding put
  put-IsValid c key value size now promoted v = elim (Option-cases (element c key)) [
    | inr (x, e) ↦
        let (found, same) = element_found c key v e in
        rw (e, put)
          (promote-IsValid c x
            (record x {
              value = value;
              size = size;
              expires_at = now + c.ttl;
              last_promoted = promoted;
            })
            v found refl refl)
    | inl e ↦
        let (dropped, ev) = make_room-Evicts (length c.order) c size (omega arith) v in
        let absent : find_key key c.order ≡ none = sym (element-find_key c key v) ∙ e in
        rw (e, put)
          (push_new-IsValid (make_room (length c.order) c size) key value size now promoted ev.valid
            (find_key-prefix key _ dropped
              (subst (λ l. find_key key l ≡ none) (sym ev.split) absent)))
  ]

  -- A new entry that fits into the empty shard fits after `Put`: the capacity is kept.
  put-bounded :
      (c : SimpleLruCache V) (key : String) (value : V) (size now promoted : ℕ)
      → IsValid c
      → element c key ≡ none
      → size ≤ c.capacity
      → (put c key value size now promoted).current_size ≤ c.capacity
  unfolding total_size
  put-bounded c key value size now promoted v absent small =
      let p = put-PutNew c key value size now promoted v absent in
      let w = put-IsValid c key value size now promoted v in
      let total : total_size (put c key value size now promoted).order
          ≡ p.front.size + total_size p.room.order =
        rw p.order in
      elim (Bool-cases (ltb c.capacity (p.room.current_size + size))) [
        | inl over ↦
            let e : total_size p.room.order ≡ 0 = rw (p.evicts.fits (ground arith)) in
            omega (arith, w.sized, total, e, p.front_size)
        | inr fits ↦
            let le : p.room.current_size + size ≤ c.capacity = ground arith in
            omega (arith, w.sized, total, p.evicts.valid.sized, p.front_size, le)
      ]

  -- The bound is lost when a stored key gets a larger value: nothing is evicted, so a value larger
  -- than the capacity leaves the shard over its capacity.
  put-over_capacity :
      (c : SimpleLruCache V) (key : String) (value : V) (size now promoted : ℕ) {old : Element V}
      → element c key ≡ some old
      → c.capacity < size
      → ((put c key value size now promoted).capacity ≡ c.capacity)
        × (c.capacity < (put c key value size now promoted).current_size)
        × (length (put c key value size now promoted).order
            ≡ suc (length (remove_id old.id c.order)))
  unfolding put
  put-over_capacity c key value size now promoted found large =
      rw (found, put) (refl, omega arith, refl)
