-- ===== src/Examples/Downloads.antt =====
-- httpDownload.c and tms.c at concrete inputs.
use service_payment_bridge.Prelude.{
  ℕ, zero, suc, ◌≡◌, refl, true, false, some, Option, ℤ, List, [], ◌∷◌, ◌++◌, codes, pos, negsuc,
  arith, if◌then◌else◌, find, has_prefix, str_eq,
}
use service_payment_bridge.Http.Payload.{
  Device, Received, bytes, timed_out, Receives, Delivered, trim, skip_spaces, cut_spaces,
  receive_payload, receive_payload-Tiles,
}
use service_payment_bridge.Config.Lines.{atoi}
use service_payment_bridge.Http.Reply.{unknown, known, payload, read_headers}
use service_payment_bridge.Http.Reply.Print.{print_headers}
use service_payment_bridge.Http.Reply.Lines.{Line, named, content_length, texts, read_headers-lines}
use service_payment_bridge.Http.Url.{Protocol, parsed, parse_url}
use service_payment_bridge.Http.Url.Text.{Url, IsUrl, entry_of, parse_url-text}
use service_payment_bridge.Update.App.{
  Act, marker_fits, images_fit, Answers, App, marked, installed, start_updating, deleted,
  marker_file, said, check_app_update, check_app_update-installs, check_app_file,
}
use service_payment_bridge.Update.Countdown.{
  Countdown, Tick, check_update, check_once_timer, count_down, count_run,
}

-- A device that gives one byte for each receive.
abbrev slow_answer : ℕ → Received
slow_answer zero = timed_out
slow_answer (suc n) = bytes (b'x' ∷ [])

abbrev slow : Device
slow = record { recv = λ i max. slow_answer max }

slow-Receives : Receives slow
slow-Receives i zero b h = cc
slow-Receives i (suc n) b h = ground arith

receive_payload-Tiles_example :
    Delivered 2048 3
      (receive_payload slow 2048 3 (b'a' ∷ []) 2).0
      (receive_payload slow 2048 3 (b'a' ∷ []) 2).1
receive_payload-Tiles_example =
    receive_payload-Tiles slow 2048 3 (b'a' ∷ []) 2 slow-Receives (omega arith) (omega arith)

abbrev some_headers : List Line
some_headers = named (codes "Server") (codes " x") ∷ content_length (codes "12") ∷ []

read_headers-lines_example :
    read_headers slow (print_headers (texts some_headers) (codes "body")) unknown 1 3
    ≡ payload (known (pos 12)) (codes "body") 1
unfolding str_eq trim skip_spaces cut_spaces atoi
read_headers-lines_example =
    read_headers-lines slow some_headers (codes "body") unknown 1 3
      ((ground arith, (refl, refl, refl)), (ground arith, tt)) (ground arith) (omega arith)

abbrev update_url : Url
update_url = record {
  protocol = Protocol.https;
  host = codes "a.com";
  port = some (codes "81");
  path = some (codes "f.zip");
}

update_url-IsUrl : IsUrl update_url
update_url-IsUrl = record {
  host_colon = ground arith;
  domain_slash = ground arith;
  domain_length = omega arith;
  port_length = omega arith;
  path_length = omega arith;
}

parse_url-text_example : parse_url (codes "https://a.com:81/f.zip") ≡ parsed (entry_of update_url)
parse_url-text_example = parse_url-text update_url update_url-IsUrl

abbrev tick : Tick
tick = record { new_timer = 1; expired = true }

abbrev spent : Countdown
spent = record { timer = some 1; total = pos 0 }

abbrev answers : Answers
answers = record {
  download = pos 10;
  unzip = pos 0;
  marker_size = pos 0;
  marker_read = pos 0;
  marker_text = [];
  listed = codes "a.img" ∷ codes "b.mp3" ∷ [];
  ticks = tick ∷ [];
  install = negsuc 0;
  delete_marker = pos 0;
}

abbrev app : App
app = record { file_filter = 0; need_update = false; update_app_name = []; countdown = spent }

check_app_update-installs_example :
    (r : List Act × App × Option ℤ) × (check_app_update answers app ≡ some r)
    × (r.0
        ≡ check_app_file answers
          ++ (said (count_run answers.ticks app.countdown).1
              ++ (marked (codes "a.img")
                  ∷ start_updating
                  ∷ installed (codes "a.img")
                  ∷ (if true then deleted marker_file ∷ [] else []))))
unfolding find has_prefix count_run check_update check_once_timer count_down marker_fits images_fit
check_app_update-installs_example =
    check_app_update-installs answers app (codes "a.img") refl refl refl refl
