-- ===== src/Tms/Tasks/Bounds.antt =====
-- tms_tms.c, Tms_UnsolveGetTermTask: how many files are listed, and which.
use service_payment_bridge.Prelude.{
  ℕ, ◌≡◌, ◌≤◌, ◌<◌, refl, false, Option, none, some, List, ◌∷◌, ◌++◌, [], codes, length,
  length-append, leb, ltb, ◌==◌, arith, Bool-cases, inl, inr,
}
use service_payment_bridge.Tms.Trade.{File}
use service_payment_bridge.Tms.Tasks.{
  Json, Listed, listed, crashed, overran, max_files, read_item, keep_needed, read_items,
  after_items, read_tasks, unsolve_get_term_task, number_of,
}

module _ {Node : Type 0} (j : Json Node) where
  -- At most 25 files, each of them needed.
  abbrev pub AllNeeded : List File → Type 0
  AllNeeded [] = Unit
  AllNeeded (f ∷ fs) = (j.needed f ≡ 0) × AllNeeded fs

  abbrev pub Fine : Listed → Type 0
  Fine (listed fs c) = (c ≡ 0) × (length fs ≤ max_files) × AllNeeded fs
  Fine crashed = Unit
  Fine overran = Unit

  AllNeeded-append : (fs gs : List File) → AllNeeded fs → AllNeeded gs → AllNeeded (fs ++ gs)
  AllNeeded-append [] gs p q = q
  AllNeeded-append (f ∷ fs) gs p q = (p.0, AllNeeded-append fs gs p.1 q)

  keep_needed-AllNeeded :
      (fs : List File) (f : File)
      → length fs < max_files
      → AllNeeded fs
      → (length (keep_needed j fs f) ≤ max_files) × AllNeeded (keep_needed j fs f)
  unfolding keep_needed
  keep_needed-AllNeeded fs f h p = elim (Bool-cases (j.needed f == 0)) [
    | inl e ↦ rw e (
      omega (arith, length-append fs (f ∷ []), h),
      AllNeeded-append fs (f ∷ []) p (ground (arith, e), tt),
    )
    | inr e ↦ rw e (omega (arith, h), p)
  ]

  items_turn :
      (p : Node) (ps : List Node) (task : ℕ) (fs : List File) (x : Option File)
      → read_item j p task ≡ x
      → AllNeeded fs
      → ((gs : List File) → length gs ≤ max_files → AllNeeded gs → Fine (read_items j ps task gs))
      → Fine (read_items j (p ∷ ps) task fs)
  unfolding read_items
  items_turn p ps task fs none e n ih = rw (e, read_items) tt
  items_turn p ps task fs (some f) e n ih = elim (Bool-cases (leb max_files (length fs))) [
    | inl g ↦ rw (e, read_items, g) tt
    | inr g ↦
        let (size, all) = keep_needed-AllNeeded fs f (ground (arith, g)) n in
        rw (e, read_items, g) (ih (keep_needed j fs f) size all)
  ]

  read_items-Fine :
      (ps : List Node) (task : ℕ) (fs : List File)
      → length fs ≤ max_files
      → AllNeeded fs
      → Fine (read_items j ps task fs)
  read_items-Fine [] task fs h n = unfold read_items in (refl, h, n)
  read_items-Fine (p ∷ ps) task fs h n =
      items_turn p ps task fs (read_item j p task) refl n
        (λ gs h' n'. read_items-Fine ps task gs h' n')

  after_items-Fine :
      (x : Listed) (next : List File → Listed)
      → Fine x
      → ((gs : List File) → length gs ≤ max_files → AllNeeded gs → Fine (next gs))
      → Fine (after_items j x next)
  unfolding after_items
  after_items-Fine (listed fs c) next f h =
      let room : ltb max_files (length fs) ≡ false = ground (arith, f.1) in rw room (h fs f.1 f.2)
  after_items-Fine crashed next f h = tt
  after_items-Fine overran next f h = tt

  tasks_turn :
      (t : Node) (ts : List Node) (task : ℕ) (fs : List File) (x : Option Node)
      → j.member t (codes "taskItemList") ≡ x
      → length fs ≤ max_files
      → AllNeeded fs
      → ((id : ℕ) (gs : List File)
          → length gs ≤ max_files
          → AllNeeded gs
          → Fine (read_tasks j ts id gs))
      → Fine (read_tasks j (t ∷ ts) task fs)
  unfolding read_tasks
  tasks_turn t ts task fs none e h n ih = rw (e, read_tasks) tt
  tasks_turn t ts task fs (some l) e h n ih = elim (Bool-cases (length (j.children l) == 0)) [
    | inl g ↦ rw (e, read_tasks, g) (refl, h, n)
    | inr g ↦
        let id = number_of j (j.member t (codes "taskId")) task in
        rw (e, read_tasks, g)
          (after_items-Fine (read_items j (j.children l) id fs) (λ gs. read_tasks j ts id gs)
            (read_items-Fine (j.children l) id fs h n) (λ gs h' n'. ih id gs h' n'))
  ]

  read_tasks-Fine :
      (ts : List Node) (task : ℕ) (fs : List File)
      → length fs ≤ max_files
      → AllNeeded fs
      → Fine (read_tasks j ts task fs)
  read_tasks-Fine [] task fs h n = unfold read_tasks in (refl, h, n)
  read_tasks-Fine (t ∷ ts) task fs h n =
      tasks_turn t ts task fs (j.member t (codes "taskItemList")) refl h n
        (λ id gs h' n'. read_tasks-Fine ts id gs h' n')

  root_turn :
      (root : Node) (x : Option Node)
      → j.member root (codes "taskList") ≡ x
      → Fine (unsolve_get_term_task j root [])
  unfolding unsolve_get_term_task
  root_turn root none e = rw (e, unsolve_get_term_task) (refl, omega arith, tt)
  root_turn root (some l) e = elim (Bool-cases (j.is_array l)) [
    | inl g ↦
        rw (e, unsolve_get_term_task, g) (read_tasks-Fine (j.children l) 0 [] (omega arith) tt)
    | inr g ↦ rw (e, unsolve_get_term_task, g) (refl, omega arith, tt)
  ]

-- Whatever the server sends, a list of tasks that is read without a crash and without a write behind
-- file[25] gives at most 25 files, all of them needed, and the result 0: the result "too many files"
-- is never reached.
pub unsolve_get_term_task-Fine :
    {Node : Type 0} (j : Json Node) (root : Node) → Fine j (unsolve_get_term_task j root [])
unsolve_get_term_task-Fine j root = root_turn j root (j.member root (codes "taskList")) refl
