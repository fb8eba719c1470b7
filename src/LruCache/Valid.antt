-- ===== src/LruCache/Valid.antt =====
-- The invariant of a shard: the map and the list agree, and the recorded size is the list's.
use Prim.Native.String.{String}
use text.Mathlib.Text.{◌==◌ as str_eq}
use text.Mathlib.TextEquality.{eq_iff}
use gostream.Prelude.{
  ℕ, suc, ◌+◌, ◌-◌, ◌<◌, ◌≡◌, refl, sym, ◌∙◌, ◌==◌, ltb, false, Bool-cases, Option-cases, List, [],
  ◌∷◌, Option, none, some, All, inl, inr, subst, arith,
}
use gostream.LruCache.{
  Element, SimpleLruCache, remove_id, element, new_simple_lru_cache, remove_element, get, push_new,
  delete, clear,
}
use gostream.LruCache.Order.{
  find_key, total_size, Distinct, All-find_key, All-remove_id, Distinct-remove_id, find_key_key,
  find_id-find_key, find_key-remove_id, total_size-remove_id, Differs-remove_id,
}

module _ {ℓ} {V : Type ℓ} where
  -- The pointer that the map should hold for a key.
  abbrev pub id_at : String → List (Element V) → Option ℕ
  id_at k l = elim (find_key k l) [ none ↦ none | some e ↦ some e.id ]

  pub record IsValid (c : SimpleLruCache V) : Type ℓ where
    pub linked : (k : String) → c.items k ≡ id_at k c.order
    pub distinct : Distinct c.order
    pub sized : c.current_size ≡ total_size c.order
    pub fresh : All (λ (e : Element V). e.id < c.next_id) c.order

  -- On a valid shard a lookup through the map finds what a search of the list finds.
  pub element-find_key :
      (c : SimpleLruCache V) (k : String) → IsValid c → element c k ≡ find_key k c.order
  element-find_key c k v = elim (Option-cases (find_key k c.order)) [
    | inl e ↦ ground (arith, v.linked k)
    | inr (x, e) ↦ ground (arith, v.linked k, find_id-find_key k c.order v.distinct e)
  ]

  pub element_found :
      (c : SimpleLruCache V) (k : String) {e : Element V}
      → IsValid c
      → element c k ≡ some e
      → (find_key e.key c.order ≡ some e) × (e.key ≡ k)
  element_found c k {e} v f =
      let found : find_key k c.order ≡ some e = sym (element-find_key c k v) ∙ f in
      let same = find_key_key k c.order found in
      (subst (λ j. find_key j c.order ≡ some e) (sym same) found, same)

  pub new_simple_lru_cache-IsValid :
      (capacity ttl : ℕ) → IsValid (new_simple_lru_cache {V = V} capacity ttl)
  unfolding new_simple_lru_cache find_key total_size
  new_simple_lru_cache-IsValid capacity ttl = record {
    linked = λ k. refl;
    distinct = tt;
    sized = refl;
    fresh = tt;
  }

  pub clear-IsValid : (c : SimpleLruCache V) → IsValid (clear c)
  unfolding clear find_key total_size
  clear-IsValid c = record { linked = λ k. refl; distinct = tt; sized = refl; fresh = tt }

  pub remove_element-IsValid :
      (c : SimpleLruCache V) (e : Element V)
      → IsValid c
      → find_key e.key c.order ≡ some e
      → IsValid (remove_element c e)
  unfolding remove_element
  remove_element-IsValid c e v f = record {
    linked = λ k. ground (arith, v.linked k, find_key-remove_id e.key k c.order v.distinct f);
    distinct = Distinct-remove_id e.id c.order v.distinct;
    sized = omega (
      arith,
      v.sized,
      total_size-remove_id e.id c.order {e = e} (find_id-find_key e.key c.order v.distinct f),
    );
    fresh = All-remove_id _ e.id c.order v.fresh;
  }

  -- The element moves to the front under new contents, with its id and its key.
  pub promote-IsValid :
      (c : SimpleLruCache V) (e e' : Element V)
      → IsValid c
      → find_key e.key c.order ≡ some e
      → e'.id ≡ e.id
      → e'.key ≡ e.key
      → IsValid (record c {
        current_size = c.current_size - e.size + e'.size;
        order = e' ∷ remove_id e.id c.order;
      })
  unfolding find_key total_size
  promote-IsValid c e e' v f same_id same_key = record {
    linked = λ k. ground (
      arith,
      v.linked k,
      find_key-remove_id e.key k c.order v.distinct f,
      eq_iff e'.key k,
      eq_iff k e.key,
    );
    distinct = (
      rw (same_id, same_key) (Differs-remove_id e.key c.order v.distinct f),
      Distinct-remove_id e.id c.order v.distinct,
    );
    sized = omega (
      arith,
      v.sized,
      total_size-remove_id e.id c.order {e = e} (find_id-find_key e.key c.order v.distinct f),
    );
    fresh = (
      rw same_id (All-find_key (λ x. x.id < c.next_id) e.key c.order v.fresh f),
      All-remove_id _ e.id c.order v.fresh,
    );
  }

  pub get-IsValid :
      (c : SimpleLruCache V) (k : String) (now promoted : ℕ)
      → IsValid c
      → IsValid (get c k now promoted).0
  unfolding get
  get-IsValid c k now promoted v = elim (Option-cases (element c k)) [
    | inl e ↦ rw (e, get) v
    | inr (x, e) ↦
        let found = element_found c k v e in
        elim (Bool-cases (ltb x.expires_at now)) [
          | inl t ↦ rw (e, get, t) (remove_element-IsValid c x v found.0)
          | inr t ↦ rw (e, get, t) (touched x found.0)
        ]
  ]
    where
      touched :
          (x : Element V)
          → find_key x.key c.order ≡ some x
          → IsValid
              (record c { order = record x { last_promoted = promoted } ∷ remove_id x.id c.order })
      touched x f =
          let size_le =
            total_size-remove_id x.id c.order {e = x}
              (find_id-find_key x.key c.order v.distinct f) in
          let p = promote-IsValid c x (record x { last_promoted = promoted }) v f refl refl in
          record {
            linked = p.linked;
            distinct = p.distinct;
            sized = omega (arith, p.sized, v.sized, size_le);
            fresh = p.fresh;
          }

  pub delete-IsValid : (c : SimpleLruCache V) (k : String) → IsValid c → IsValid (delete c k)
  unfolding delete
  delete-IsValid c k v = elim (Option-cases (element c k)) [
    | inl e ↦ rw (e, delete) v
    | inr (x, e) ↦ rw (e, delete) (remove_element-IsValid c x v (element_found c k v e).0)
  ]

  fresh_Differs :
      (n : ℕ) (k : String) (l : List (Element V))
      → All (λ (e : Element V). e.id < n) l
      → find_key k l ≡ none
      → All (λ y. ((y.id == n) ≡ false) × (str_eq y.key k ≡ false)) l
  unfolding find_key
  fresh_Differs n k [] h f = tt
  fresh_Differs n k (y ∷ ys) h f = elim (Bool-cases (str_eq y.key k)) [
    | inl t ↦ absurd (ground arith)
    | inr t ↦ ((ground arith, t), fresh_Differs n k ys h.1 (rw t at f))
  ]

  older :
      (l : List (Element V)) (n : ℕ)
      → All (λ (e : Element V). e.id < n) l
      → All (λ (e : Element V). e.id < suc n) l
  older [] n h = tt
  older (x ∷ xs) n h = (omega arith, older xs n h.1)

  pub push_new-IsValid :
      (c : SimpleLruCache V) (k : String) (value : V) (size now promoted : ℕ)
      → IsValid c
      → find_key k c.order ≡ none
      → IsValid (push_new c k value size now promoted)
  unfolding push_new find_key total_size
  push_new-IsValid c k value size now promoted v absent = record {
    linked = λ j. ground (arith, v.linked j, eq_iff k j, eq_iff j k);
    distinct = (fresh_Differs c.next_id k c.order v.fresh absent, v.distinct);
    sized = omega (arith, v.sized);
    fresh = (omega arith, older c.order c.next_id v.fresh);
  }
