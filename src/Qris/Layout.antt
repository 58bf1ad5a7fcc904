-- ===== src/Qris/Layout.antt =====
-- display.c: qrBmpWidth and the placing of the QR code by QRCodeDispText. Sizes are not negative.
use service_payment_bridge.Prelude.{
  ℕ, ◌+◌, ◌-◌, ◌*◌, ◌/◌, ◌≤◌, ◌<◌, ◌≡◌, true, false, ◌&&◌, ◌||◌, Option, none, some, [], ◌∷◌, Bytes,
  length, get_or, ltb, leb, ◌==◌, if◌then◌else◌, arith, ℤ, is,
}
use native.Mathlib.Nat.{div-add-mod}

-- What ScrGetInfo_Api reports: the physical size and the size in use.
pub record Lcd : Type 0 where
  pub width : ℕ
  pub height : ℕ
  pub use_width : ℕ
  pub use_height : ℕ

abbrev pub qr_margin : ℕ
qr_margin = 8

-- The four bytes of the width in the file.
unfoldable pub bmp_width : Bytes → ℕ
bmp_width hdr =
    get_or hdr 18 0 + 256 * get_or hdr 19 0 + 65536 * get_or hdr 20 0 + 16777216 * get_or hdr 21 0

-- qrBmpWidth, from the result of ReadFile_Api and the 26 bytes of the header; 0 is a failure. From 2^31 on the
-- int is negative, which the caller, who tests for `<= 0`, takes for a failure as well: it is 0 here.
unfoldable pub qr_bmp_width : ℤ → Bytes → ℕ
unfolding bmp_width
qr_bmp_width r hdr =
    if (if is 0 r then false else true) || ltb (length hdr) 26
    then 0
    else if (get_or hdr 0 0 == b'B') && (get_or hdr 1 0 == b'M')
    then (if ltb (bmp_width hdr) 2147483648 then bmp_width hdr else 0)
    else 0

-- "w", "h" and "barH"
unfoldable pub area_width : Lcd → ℕ
area_width l = if ltb 0 l.use_width then l.use_width else l.width

unfoldable pub area_height : Lcd → ℕ
area_height l = if ltb 0 l.use_height then l.use_height else l.height

unfoldable pub bar_height : Lcd → ℕ
bar_height l = l.height - area_height l

-- "field / base", at least 1
unfoldable pub zoom : Lcd → ℕ → ℕ
zoom l base =
    let field =
      (if ltb (area_width l) (area_height l) then area_width l else area_height l)
      - 2 * qr_margin in
    if ltb (field / base) 1 then 1 else field / base

pub record Place : Type 0 where
  pub size : ℕ
  pub x : ℕ
  pub y : ℕ

-- What the encoder answers for a zoom: its result, and the width that qrBmpWidth then reads.
pub record Encoder : Type 0 where
  pub result : ℕ → ℤ
  pub bmp_width : ℕ → ℕ

unfoldable pub place : Lcd → ℕ → ℕ → ℕ → Place
place l base z read =
    let size = (if leb read 0 then base * z else read) in
    record {
      size = size;
      x = (area_width l - size) / 2;
      y = bar_height l + (area_height l - size) / 2;
    }

-- QRCodeDispText: `none` when it returns before it draws.
unfoldable pub qr_code_disp_text : Lcd → Encoder → Bytes → Option Place
qr_code_disp_text l e [] = none
qr_code_disp_text l e (c ∷ text) =
    if (if is 0 (e.result 1) then leb (e.bmp_width 1) 0 else true)
    then none
    else let base = e.bmp_width 1 in
      let z = zoom l base in
      if is 0 (e.result z) then some (place l base z (e.bmp_width z)) else none

div_le : (b f : ℕ) → b * (f / b) ≤ f
div_le b f = omega (arith, div-add-mod f b)

zoom_fits :
    (l : Lcd) (base : ℕ)
    → 0 < base
    → base + 16 ≤ area_width l
    → base + 16 ≤ area_height l
    → (base * zoom l base + 16 ≤ area_width l) × (base * zoom l base + 16 ≤ area_height l)
unfolding zoom
zoom_fits l base h w k =
    let field = (if ltb (area_width l) (area_height l) then area_width l else area_height l) - 16 in
    ground (arith, div_le base field)

-- A code that fits the usable area at zoom 1, with the margins, is drawn whole inside that area and
-- below the status bar, whenever the encoder scales by the zoom.
pub qr_code_disp_text_inside :
    (l : Lcd) (e : Encoder) (c : ℕ) (text : Bytes) (p : Place)
    → ((z : ℕ) → e.bmp_width z ≡ e.bmp_width 1 * z)
    → e.bmp_width 1 + 16 ≤ area_width l
    → e.bmp_width 1 + 16 ≤ area_height l
    → qr_code_disp_text l e (c ∷ text) ≡ some p
    → (p.x + p.size ≤ area_width l)
      × (bar_height l ≤ p.y)
      × (p.y + p.size ≤ bar_height l + area_height l)
unfolding qr_code_disp_text place
qr_code_disp_text_inside l e c text p scale w h eq =
    let base = e.bmp_width 1 in ground (arith, zoom_fits l base, scale (zoom l base))
