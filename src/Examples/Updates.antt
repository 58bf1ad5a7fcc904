-- ===== src/Examples/Updates.antt =====
-- tms_tms.c, the course of a download, and AmtToMp3.c at concrete inputs.
use service_payment_bridge.Prelude.{
  ℕ, ◌+◌, ◌==◌, if◌then◌else◌, ◌≡◌, refl, false, true, none, some, List, [], ◌∷◌, Bytes, codes,
  cstr, str_eq, find, has_prefix, arith,
}
use service_payment_bridge.Config.Lines.{atoi}
use service_payment_bridge.Http.Payload.{bytes, trim, cut_spaces, skip_spaces}
use service_payment_bridge.Tms.Packet.{announced}
use service_payment_bridge.Tms.Trade.{Terminal}
use service_payment_bridge.Tms.Download.{download_files}
use service_payment_bridge.Tms.Download.{Outcome}
use service_payment_bridge.Tms.Download.Endless.{Empty, download_files-waits}
use service_payment_bridge.Tms.Exchange.{fetch, attempt, receive_reply, ask, host_of}
use service_payment_bridge.Tms.Flow.{Server, comm_process}
use service_payment_bridge.Tms.Flow.Complete.{Ready, comm_process-Ready}
use service_payment_bridge.Tms.Packet.{announced, get_content_len, get_domain_name, need_reconnect}
use service_payment_bridge.Tms.Tasks.{Json, unsolve_get_term_task}
use service_payment_bridge.Tms.Tasks.Bounds.{Fine, unsolve_get_term_task-Fine}
use service_payment_bridge.Examples.Management.{image, terminal, before}

-- A server that sends no bytes of the file.
abbrev bare_head : Bytes
bare_head = codes "HTTP/1.1 200 OK\r\nContent-Length: 0\r\n\r\n"

abbrev bare : Terminal
bare = record terminal { device = record { recv = λ i max. bytes bare_head } }

bare-Empty : Empty bare image bare_head 34
unfolding fetch attempt receive_reply ask get_content_len get_domain_name host_of need_reconnect
    find has_prefix cstr atoi trim cut_spaces skip_spaces str_eq announced
bare-Empty = record { answered = λ t. refl; bare = omega arith; kept = refl }

download_files-waits_example : (download_files bare before none 1000).1 ≡ Outcome.waits
download_files-waits_example =
    download_files-waits bare bare_head 34 image bare-Empty before none 1000 refl (omega arith) refl

-- A document with one task and one item, whose nodes are numbered from the root on.
abbrev nodes_below : ℕ → List ℕ
nodes_below n = if n == 1 then 2 ∷ [] else if n == 3 then 4 ∷ [] else []

abbrev one_task : Json ℕ
one_task = record {
  member = λ n k. some (n + 1);
  children = nodes_below;
  is_null = λ n. false;
  is_array = λ n. true;
  text = λ n. some (codes "APP");
  number = λ n. n;
  asc_to_long = λ b. 0;
  asc_to_bcd = λ b. b;
  needed = λ f. 0;
}

unsolve_get_term_task-Fine_example : Fine one_task (unsolve_get_term_task one_task 0 [])
unsolve_get_term_task-Fine_example = unsolve_get_term_task-Fine one_task 0

abbrev friendly : Server
friendly = record { exchange = λ t k i. 0; tasks = image ∷ []; stored = false; status_file = none }

comm_process-Ready_example :
    Ready (comm_process terminal friendly before 3).0 (comm_process terminal friendly before 3).1
comm_process-Ready_example = comm_process-Ready terminal friendly before 3 (λ g h. cc)
