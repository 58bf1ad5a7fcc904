-- ===== src/Update/App.antt =====
-- tms.c: checkAppUpdate and one round of TMSThread; file.c: the files they use. What the file system
-- and the installer answer is given; what is done to them is the result, in order.
use service_payment_bridge.Prelude.{
  ℕ, ◌≡◌, refl, Bool, true, false, not, ◌&&◌, ◌||◌, ltb, length, pos_part, Option, none, some, List,
  [], ◌∷◌, ◌++◌, Bytes, ℤ, pos, neg, at_most, is, is_neg, codes, cstr, find, if◌then◌else◌, arith,
  append-nil,
}
use service_payment_bridge.Update.Countdown.{Countdown, Tick, Tip, count_run}

pub data Act : Type 0 where
  deleted : Bytes → Act
  unzipped : Bytes → Act
  marked : Bytes → Act
  tip : Tip → Act
  start_updating : Act
  installed : Bytes → Act

abbrev pub marker_file : Bytes
marker_file = codes "/ext/ifUpdate"

abbrev pub down_file : Bytes
down_file = codes "/ext/downFile.zip"

-- fileFilter, needUpdate == 1 and updateAppName, with tmsPlayTimer and tmsTotleTime.
pub record App : Type 0 where
  pub file_filter : ℕ
  pub need_update : Bool
  pub update_app_name : Bytes
  pub countdown : Countdown

pub record Answers : Type 0 where
  pub download : ℤ
  pub unzip : ℤ
  pub marker_size : ℤ
  pub marker_read : ℤ
  pub marker_text : Bytes
  pub listed : List Bytes
  pub ticks : List Tick
  pub install : ℤ
  pub delete_marker : ℤ

abbrev holds : Bytes → Bytes → Bool
holds t s = elim (find t s) [ none ↦ false | some n ↦ true ]

-- filegetlistcbtesting, on one name.
unfoldable pub file_list_callback : Bytes → App → List Act × App
file_list_callback name s =
    if is 1 (pos s.file_filter)
    then (if holds (codes ".mp3") name then (deleted name ∷ [], s) else ([], s))
    else if is 2 (pos s.file_filter)
    then (if holds (codes ".img") name then (deleted name ∷ [], s) else ([], s))
    else if is 3 (pos s.file_filter)
    then (if holds (codes ".img") name
        then ([], record s { update_app_name = name; need_update = true })
        else ([], s))
    else ([], s)

-- folderFileDisplay: the callback is called with each name of the folder.
unfoldable pub folder_file_display : List Bytes → App → List Act × App
folder_file_display [] s = ([], s)
folder_file_display (n ∷ ns) s =
    let (acts, s') = file_list_callback n s in
    let (more, s'') = folder_file_display ns s' in (acts ++ more, s'')

-- unzipDownFile
unfoldable pub unzip_down_file : Bytes → ℤ → List Act × ℤ
unzip_down_file name r =
    if is 0 r then (unzipped name ∷ deleted name ∷ [], pos 0) else (unzipped name ∷ [], neg 1)

-- CheckAppFile
unfoldable pub check_app_file : Answers → List Act
check_app_file a =
    if at_most 0 a.marker_size
    then []
    else if is 0 a.marker_read
    then deleted (cstr a.marker_text) ∷ deleted marker_file ∷ []
    else []

unfoldable pub said : List Tip → List Act
said [] = []
said (t ∷ ts) = tip t ∷ said ts

-- "if (needUpdate == 1)", once the countdown is over.
unfoldable pub install_app : Answers → Bytes → List Act × ℤ
install_app a name =
    let acts = marked name ∷ start_updating ∷ installed name ∷ [] in
    if is_neg a.install
    then (acts ++ deleted marker_file ∷ [], a.delete_marker)
    else (acts, a.install)

-- checkAppUpdate where the names fit; `none` while the countdown still runs after the given ticks.
unfoldable pub update_run : Answers → App → List Act × App × Option ℤ
update_run a s =
    let (acts, s') = folder_file_display a.listed (record s { file_filter = 3 }) in
    let (count, tips, over) = count_run a.ticks s'.countdown in
    let (more, ret) = install_app a s'.update_app_name in
    let before = check_app_file a ++ acts in
    if s'.need_update
    then if over
      then (before ++ (said tips ++ more), record s' { countdown = count }, some ret)
      else (before ++ said tips, record s' { countdown = count }, none)
    else (before, s', some (pos 2))

-- memcpy into updateAppName[32], which is then read as a string.
unfoldable pub images_fit : List Bytes → Bool
images_fit [] = true
images_fit (n ∷ ns) = (not (holds (codes ".img") n) || ltb (length n) 32) && images_fit ns

-- The whole marker file is read into the 32 bytes of `buf`, which is then read as a string.
unfoldable pub marker_fits : Answers → Bool
marker_fits a = ltb (pos_part a.marker_size) 32

-- checkAppUpdate; `none` where a name is written past its array.
unfoldable pub check_app_update : Answers → App → Option (List Act × App × Option ℤ)
unfolding update_run images_fit marker_fits
check_app_update a s = if marker_fits a && images_fit a.listed then some (update_run a s) else none

unfoldable pub behind_zip :
    List Act → Option (List Act × App × Option ℤ) → Option (List Act × App × Option ℤ)
behind_zip zip none = none
behind_zip zip (some (acts, s, ret)) = some (zip ++ acts, s, ret)

-- The body of TMSThread's loop, when the flag is set; it then clears the flag.
unfoldable pub tms_round : Answers → App → Option (List Act × App × Option ℤ)
unfolding behind_zip check_app_update unzip_down_file
tms_round a s =
    if at_most 0 a.download
    then some ([], s, some a.download)
    else behind_zip (unzip_down_file down_file a.unzip).0 (check_app_update a s)

-- The last name of a listing that holds ".img".
abbrev pub last_image : List Bytes → Option Bytes
last_image [] = none
last_image (n ∷ ns) = elim (last_image ns) [
  | some m ↦ some m
  | none ↦ if holds (codes ".img") n then some n else none
]

-- What the listing leaves in the variables.
abbrev found : Option Bytes → App → App
found none s = s
found (some n) s = record s { update_app_name = n; need_update = true }

callback_image :
    (n : Bytes) (s : App)
    → s.file_filter ≡ 3
    → file_list_callback n s ≡ ([], (if holds (codes ".img") n then found (some n) s else s))
unfolding file_list_callback
callback_image n s h = ground arith

found_last :
    (n : Bytes) (m : Option Bytes) (b : Bool) (s : App)
    → found m (if b then found (some n) s else s)
      ≡ found (elim m [ some k ↦ some k | none ↦ if b then some n else none ]) s
found_last n none true s = refl
found_last n none false s = refl
found_last n (some k) true s = refl
found_last n (some k) false s = refl

filter_kept :
    (n : Bytes) (b : Bool) (s : App)
    → s.file_filter ≡ 3
    → (if b then found (some n) s else s).file_filter ≡ 3
filter_kept n true s h = h
filter_kept n false s h = h

folder_file_display-last_image :
    (ns : List Bytes) (s : App)
    → s.file_filter ≡ 3
    → folder_file_display ns s ≡ ([], found (last_image ns) s)
unfolding folder_file_display
folder_file_display-last_image [] s h = refl
folder_file_display-last_image (n ∷ ns) s h =
    let image = holds (codes ".img") n in
    rw
      (
        callback_image n s h,
        folder_file_display-last_image ns (if image then found (some n) s else s)
            (filter_kept n image s h),
        found_last n (last_image ns) image s,
      )
      refl

install_acts :
    (a : Answers) (name : Bytes) (before tips : List Act)
    → before ++ (tips ++ (install_app a name).0)
      ≡ before
        ++ (tips
            ++ (marked name
                ∷ start_updating
                ∷ installed name
                ∷ (if is_neg a.install then deleted marker_file ∷ [] else [])))
unfolding install_app
install_acts a name before tips = ground arith

update_run-installs :
    (a : Answers) (s : App) (name : Bytes)
    → last_image a.listed ≡ some name
    → (count_run a.ticks s.countdown).2 ≡ true
    → (update_run a s).0
      ≡ check_app_file a
        ++ (said (count_run a.ticks s.countdown).1
            ++ (marked name
                ∷ start_updating
                ∷ installed name
                ∷ (if is_neg a.install then deleted marker_file ∷ [] else [])))
unfolding update_run install_app
update_run-installs a s name h c =
    rw (folder_file_display-last_image a.listed (record s { file_filter = 3 }) refl, h)
      (rw (c, append-nil (check_app_file a))
        (install_acts a name (check_app_file a) (said (count_run a.ticks s.countdown).1)))

check_app_update-some :
    (a : Answers) (s : App)
    → marker_fits a ≡ true
    → images_fit a.listed ≡ true
    → check_app_update a s ≡ some (update_run a s)
unfolding check_app_update
check_app_update-some a s h k = rw (h, k) refl

-- Where the marker file and each ".img" name of the listing are below 32 bytes, the listing holds an ".img"
-- file and the countdown is over, checkAppUpdate stays within its arrays, and its acts are: what CheckAppFile
-- deletes, the tips, then the last ".img" of the listing is written to the marker file before it is
-- installed, and the marker is deleted again exactly if the installer fails.
pub check_app_update-installs :
    (a : Answers) (s : App) (name : Bytes)
    → marker_fits a ≡ true
    → images_fit a.listed ≡ true
    → last_image a.listed ≡ some name
    → (count_run a.ticks s.countdown).2 ≡ true
    → (r : List Act × App × Option ℤ) × (check_app_update a s ≡ some r)
      × (r.0
          ≡ check_app_file a
            ++ (said (count_run a.ticks s.countdown).1
                ++ (marked name
                    ∷ start_updating
                    ∷ installed name
                    ∷ (if is_neg a.install then deleted marker_file ∷ [] else []))))
check_app_update-installs a s name m i h c =
    (update_run a s, check_app_update-some a s m i, update_run-installs a s name h c)

-- Without an ".img" in the listing, and none found earlier, checkAppUpdate returns 2 and only
-- deletes what CheckAppFile deletes; the countdown does not start.
update_run-none :
    (a : Answers) (s : App)
    → last_image a.listed ≡ none
    → s.need_update ≡ false
    → (update_run a s).0 ≡ check_app_file a
      × (update_run a s).1.countdown ≡ s.countdown
      × (update_run a s).2 ≡ some (pos 2)
unfolding update_run
update_run-none a s h f =
    rw (folder_file_display-last_image a.listed (record s { file_filter = 3 }) refl, h)
      (rw (f, append-nil (check_app_file a)) (refl, refl, refl))
