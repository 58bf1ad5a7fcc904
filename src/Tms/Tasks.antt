-- ===== src/Tms/Tasks.antt =====
-- tms_tms.c, Tms_UnsolveGetTermTask: the files that the server's tasks list. The JSON library and the
-- conversions of the platform are parameters.
pub mod Bounds
use service_payment_bridge.Prelude.{
  ℕ, zero, suc, ◌+◌, Bool, true, false, Option, none, some, List, ◌∷◌, ◌++◌, [], Bytes, codes,
  length, take, replicate, leb, ltb, ◌==◌, if◌then◌else◌,
}
use service_payment_bridge.Tms.Trade.{File, Status, uncomplete}

-- cJSON: a member of an object, the chain of children, the kinds that the code asks for, valuestring
-- (`none` is NULL), valueint64. AscToLong_Api and AscToBcd_Api. `needed` is Tms_CheckNeedDownFile.
-- The code casts what AscToLong_Api gives to an int: `asc_to_long` is the size of a file that is below 2^31 bytes,
-- and the negative sizes that the cast makes of larger ones are not modelled.
pub record Json (Node : Type 0) : Type 0 where
  pub member : Node → Bytes → Option Node
  pub children : Node → List Node
  pub is_null : Node → Bool
  pub is_array : Node → Bool
  pub text : Node → Option Bytes
  pub number : Node → ℕ
  pub asc_to_long : Bytes → ℕ
  pub asc_to_bcd : Bytes → Bytes
  pub needed : File → ℕ

-- What is returned with the files listed; `crashed` is a read through NULL, `overran` a write behind
-- file[25].
pub data Listed : Type 0 where
  listed : List File → ℕ → Listed
  crashed overran : Listed

abbrev pub max_files : ℕ
max_files = 25

module _ {Node : Type 0} (j : Json Node) where
  -- A text member, cut to the field; an absent one leaves the field empty.
  unfoldable pub text_of : Option Node → ℕ → Option Bytes
  text_of none n = some []
  text_of (some p) n =
      if j.is_null p then some [] else elim (j.text p) [ none ↦ none | some s ↦ some (take n s) ]

  unfoldable pub number_of : Option Node → ℕ → ℕ
  number_of none n = n
  number_of (some p) n = if j.is_null p then n else j.number p

  infixl 5 ◌>>=◌
  abbrev ◌>>=◌ : {A B : Type 0} → Option A → (A → Option B) → Option B
  none >>= f = none
  some a >>= f = f a

  -- The item's fields, in the zeroed entry file[fnum]. "fileSize" is
  -- not cut: a packet has less than 2048 bytes.
  unfoldable pub read_item : Node → ℕ → Option File
  unfolding text_of number_of
  read_item p task = do
    kind ← text_of (j.member p (codes "fileType")) 4
    version ← text_of (j.member p (codes "fileVersion")) 25
    size ← text_of (j.member p (codes "fileSize")) 2048
    path ← text_of (j.member p (codes "fileUrl")) 127
    md5 ← text_of (j.member p (codes "fileMd5")) 32
    name ← text_of (j.member p (codes "fileName")) 31
    some (record {
      name = name;
      kind = kind;
      version = version;
      path = path;
      md5 = if length md5 == 0 then replicate 16 0 else take 16 (j.asc_to_bcd md5);
      size = if length size == 0 then 0 else j.asc_to_long size;
      start = 0;
      status = uncomplete;
      task_id = task;
      item_id = number_of (j.member p (codes "id")) 0;
    })

  -- The entry is kept, or zeroed for the next item.
  unfoldable pub keep_needed : List File → File → List File
  keep_needed fs f = if j.needed f == 0 then fs ++ f ∷ [] else fs

  -- "while(pitem != NULL)"
  unfoldable pub read_items : List Node → ℕ → List File → Listed
  unfolding read_item keep_needed
  read_items [] task fs = listed fs 0
  read_items (p ∷ ps) task fs = elim (read_item p task) [
    | none ↦ crashed
    | some f ↦
        let rest = read_items ps task (keep_needed fs f) in
        if leb max_files (length fs) then overran else rest
  ]

  -- "if(TmsTrade.fnum > _TMS_MAX_APPLIB)" stands behind the items of each task.
  unfoldable pub after_items : Listed → (List File → Listed) → Listed
  after_items (listed fs c) next = if ltb max_files (length fs) then listed fs 10 else next fs
  after_items crashed next = crashed
  after_items overran next = overran

  -- "while(pItem != NULL)": an empty list of items ends it.
  unfoldable pub read_tasks : List Node → ℕ → List File → Listed
  unfolding read_items after_items number_of
  read_tasks [] task fs = listed fs 0
  read_tasks (t ∷ ts) task fs =
      let id = number_of (j.member t (codes "taskId")) task in
      let next : List File → Listed = λ gs. read_tasks ts id gs in
      elim (j.member t (codes "taskItemList")) [
        | none ↦ crashed
        | some l ↦
            let items = j.children l in
            if length items == 0 then listed fs 0 else after_items (read_items items id fs) next
      ]

  -- Tms_UnsolveGetTermTask
  unfoldable pub unsolve_get_term_task : Node → List File → Listed
  unfolding read_tasks
  unsolve_get_term_task root fs = elim (j.member root (codes "taskList")) [
    | none ↦ listed fs 0
    | some l ↦ if j.is_array l then read_tasks (j.children l) 0 fs else listed fs 0
  ]
