-- ===== src/Locks/Enter.antt =====
-- The first section of `Lock` and `TryLock` keeps the invariant.
use Prim.Native.String.{String}
use gostream.Prelude.{
  ℕ, suc, ◌+◌, ◌≡◌, sym, ap, ◌∙◌, ◌==◌, false, Bool-cases, Option-cases, List, ◌∷◌, ◌++◌, Option,
  none, some, All, inl, inr, arith, subst,
}
use gostream.Locks.{Goroutine, idle, Manager, assign, update, acquire_entry, with_goroutines}
use gostream.Locks.Counts.{
  one_if, uses_of, holds_of, uses, holds, Linked, uses-append, holds-append, holds-le-uses,
  All-split, All-join, All-mono, uses_unlinked,
}
use gostream.Locks.Sound.{IsSound, bit, assign_same, assign_other, Linked-mono, assign-cases}

-- A goroutine that begins to use an entry that the map has.
finds :
    (m : Manager) (before after : List Goroutine) (h : Goroutine) (path : String) (i : ℕ)
    → m.goroutines ≡ before ++ idle ∷ after
    → IsSound m
    → m.locks path ≡ some i
    → Linked m.locks h
    → ((e : ℕ) → uses_of e h ≡ one_if i e)
    → ((e : ℕ) → holds_of e h ≡ 0)
    → IsSound (record m { refs = update m.refs i (m.refs i + 1); goroutines = before ++ h ∷ after })
finds m before after h path i eq s l link count free = record {
  linked = All-join (Linked m.locks) before h after parts.0 link parts.2;
  counted = counted;
  in_use = λ p e q. omega (arith, s.in_use p e q, grows e);
  one_holder = λ e. holds-append e before h after ∙ held e;
  separate = s.separate;
  fresh = s.fresh;
}
  where
    parts : All (Linked m.locks) before × Unit {0} × All (Linked m.locks) after
    parts = All-split (Linked m.locks) before idle after (subst (All (Linked m.locks)) eq s.linked)

    grows : (e : ℕ) → uses e (before ++ h ∷ after) ≡ uses e m.goroutines + one_if i e
    grows e = omega (
      arith,
      uses-append e before idle after,
      uses-append e before h after,
      count e,
      ap (uses e) eq,
    )

    counted :
        (p : String) (e : ℕ)
        → m.locks p ≡ some e
        → update m.refs i (m.refs i + 1) e ≡ uses e (before ++ h ∷ after)
    counted p e q = elim (Bool-cases (e == i)) [
      | inl t ↦ grind (arith, grows e, s.counted p e q)
      | inr t ↦ grind (arith, grows e, s.counted p e q)
    ]

    held : (e : ℕ) → holds e before + holds_of e h + holds e after ≡ bit (m.held e)
    held e =
        omega (arith, free e)
        ∙ (sym (holds-append e before idle after) ∙ (ap (holds e) (sym eq) ∙ s.one_holder e))

-- A goroutine that begins to use an entry that it has made.
makes :
    (m : Manager) (before after : List Goroutine) (h : Goroutine) (path : String)
    → m.goroutines ≡ before ++ idle ∷ after
    → IsSound m
    → m.locks path ≡ none
    → Linked (assign m.locks path (some m.next_id)) h
    → ((e : ℕ) → uses_of e h ≡ one_if m.next_id e)
    → ((e : ℕ) → holds_of e h ≡ 0)
    → IsSound (record m {
      locks = assign m.locks path (some m.next_id);
      refs = update m.refs m.next_id (0 + 1);
      held = update m.held m.next_id false;
      next_id = suc m.next_id;
      goroutines = before ++ h ∷ after;
    })
makes m before after h path eq s l link count free = record {
  linked = All-join (Linked locks) before h after (up before parts.0) link (up after parts.2);
  counted = λ p e q. elim (assign-cases m.locks path (some m.next_id) p e q) [
    | inl (a, b) ↦ grind (arith, grows e, unused, made e b)
    | inr (a, b) ↦ grind (arith, grows e, s.counted p e b, s.fresh p e b)
  ];
  in_use = λ p e q. elim (assign-cases m.locks path (some m.next_id) p e q) [
    | inl (a, b) ↦ grind (arith, grows e, made e b)
    | inr (a, b) ↦ omega (arith, s.in_use p e b, grows e)
  ];
  one_holder = λ e. holds-append e before h after ∙ held e;
  separate = apart;
  fresh = λ p e q. elim (assign-cases m.locks path (some m.next_id) p e q) [
    | inl (a, b) ↦ omega (arith, made e b)
    | inr (a, b) ↦ omega (arith, s.fresh p e b)
  ];
}
  where
    locks : String → Option ℕ
    locks = assign m.locks path (some m.next_id)

    parts : All (Linked m.locks) before × Unit {0} × All (Linked m.locks) after
    parts = All-split (Linked m.locks) before idle after (subst (All (Linked m.locks)) eq s.linked)

    keeps : (p : String) (e : ℕ) → m.locks p ≡ some e → locks p ≡ some e
    keeps p e q = assign_other m.locks path (some m.next_id) p (λ a. cc) ∙ q

    up : (gs : List Goroutine) → All (Linked m.locks) gs → All (Linked locks) gs
    up gs a = All-mono (Linked m.locks) (Linked locks) gs (Linked-mono m.locks locks keeps) a

    unused : uses m.next_id m.goroutines ≡ 0
    unused =
        uses_unlinked m.locks m.next_id m.goroutines s.linked
          (λ p q. omega (arith, s.fresh p m.next_id q))

    grows : (e : ℕ) → uses e (before ++ h ∷ after) ≡ uses e m.goroutines + one_if m.next_id e
    grows e = omega (
      arith,
      uses-append e before idle after,
      uses-append e before h after,
      count e,
      ap (uses e) eq,
    )

    made : (e : ℕ) → some m.next_id ≡ some e → m.next_id ≡ e
    made e q = cc

    apart : (p q : String) (e : ℕ) → locks p ≡ some e → locks q ≡ some e → p ≡ q
    apart p q e a b = elim (assign-cases m.locks path (some m.next_id) p e a) [
      | inl (c, d) ↦ elim (assign-cases m.locks path (some m.next_id) q e b) [
        | inl (c', d') ↦ c ∙ sym c'
        | inr (c', d') ↦ absurd (omega (arith, s.fresh q e d', made e d))
      ]
      | inr (c, d) ↦ elim (assign-cases m.locks path (some m.next_id) q e b) [
        | inl (c', d') ↦ absurd (omega (arith, s.fresh p e d, made e d'))
        | inr (c', d') ↦ s.separate p q e d d'
      ]
    ]

    lowered : (e : ℕ) → bit (m.held e) ≡ bit (update m.held m.next_id false e)
    lowered e = elim (Bool-cases (e == m.next_id)) [
      | inl t ↦ grind (arith, s.one_holder e, holds-le-uses e m.goroutines, unused)
      | inr t ↦ grind arith
    ]

    held :
        (e : ℕ)
        → holds e before + holds_of e h + holds e after ≡ bit (update m.held m.next_id false e)
    held e =
        omega (arith, free e)
        ∙ (sym (holds-append e before idle after)
            ∙ (ap (holds e) (sym eq) ∙ (s.one_holder e ∙ lowered e)))

pub starts :
    (m : Manager) (before after : List Goroutine) (path : String) (f : ℕ → Goroutine)
    → m.goroutines ≡ before ++ idle ∷ after
    → IsSound m
    → ((k : String → Option ℕ) (e : ℕ) → k path ≡ some e → Linked k (f e))
    → ((i e : ℕ) → uses_of e (f i) ≡ one_if i e)
    → ((i e : ℕ) → holds_of e (f i) ≡ 0)
    → IsSound
        (with_goroutines (acquire_entry m path).0 (before ++ f (acquire_entry m path).1 ∷ after))
unfolding acquire_entry
starts m before after path f eq s link count free = elim (Option-cases (m.locks path)) [
  | inl l ↦
      rw (l, acquire_entry)
        (makes m before after (f m.next_id) path eq s l
          (link _ m.next_id (assign_same m.locks path (some m.next_id))) (count m.next_id)
          (free m.next_id))
  | inr (i, l) ↦
      rw (l, acquire_entry)
        (finds m before after (f i) path i eq s l (link _ i l) (count i) (free i))
]
