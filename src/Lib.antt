-- ===== src/Lib.antt =====
-- The firmware of a QRIS soundbox (docs/eclipse), verified: a device that connects to an MQTT
-- broker, plays the audio files that a payment names, shows dynamic QRIS codes, and is updated from
-- afar.
--
-- Parts of the program, the files that model them, and how they correspond:
-- - Net (docs/eclipse/src/network.c): the table of sockets. Device has the table, the calls of the
--   platform and the state monad; Connect has getCertificate and net_connect, Transfer has net_close,
--   net_read and net_write. A pointer that the code hands out is `slot i` for &sockets[i], `null`, or
--   `cast` for an integer that is returned as a pointer. The platform is an oracle: what a call returns
--   and writes may depend on all calls made before. Balance, Pool, Dial, Session and Laws hold proofs.
-- - Qris: the dynamic payment. Amount is formatRupiah of display.c and GetAmount of func.c; Layout is
--   qrBmpWidth and QRCodeDispText; Message is onTopicMessageArrived of mqtt.c; Wait is the loops of
--   qrisWaitPayment and QrisDinamis; Thread is mQTTMainThread. Protocol puts the menu thread of
--   display.c and the MQTT thread of mqtt.c together, one step for each access of the shared variables,
--   so that every interleaving is a sequence of steps; Protocol/Invariant and Protocol/Stale are about it.
-- - Config (docs/eclipse/src/param.c): Lines is readMqttCfg with applyCfgLine, Init is applyMqttParam
--   and initParam with the SYS_PARAM of docs/eclipse/inc/def.h; Print and Bounds hold proofs.
-- - Monitor (docs/eclipse/src/monitor.c): Signal is SingalProc, Battery is BatChargeProc.
-- - Update (docs/eclipse/src/tms.c, file.c): Countdown is tmsCheckUpdate, App is checkAppUpdate, a round
--   of TMSThread, and the file helpers.
-- - Http (docs/eclipse/src/httpDownload.c): Url is parseURL, Reply the status line and the headers of
--   __httpDownload, Payload its part for a Content-Length, Chunked its part for chunks, Request the whole
--   function with its connections, Ranges httpDownload. What dev_connect, dev_send and dev_recv give is
--   a record of answers, and sscanf is a parameter.
-- - Tms (docs/eclipse/src/tms_tms.c, docs/eclipse/inc/tms_tms.h): remote management. Trade has the
--   state, __TmsTrade__ and __FileStruct__, and the file system as a log of calls; Packet is
--   Tms_RecvPacket with the headers that it reads; Tasks is Tms_UnsolveGetTermTask; Versions is
--   Tms_CheckNeedDownFile and Tms_CompareVersions; Exchange, Download and Store are
--   Tms_DownloadUrlFilesOneByOne with Tms_WriteFile, from one request to all files; Flow is
--   Tms_CommProcess and TmsDownload_Api; Install is TmsUpdate_Api. Members and Request are
--   Tms_CreatePacket, Reply is Tms_ResolveHTTPPacket with the exchange around it, Account the requests
--   outside a download, the status check and TmsRemoteUpgrade, Messages the texts of errors. Flow takes
--   what an exchange returns from a table of answers, Account from a function. Their children hold proofs.
-- - Base64 (docs/eclipse/src/tms_base64.c) and Speech (docs/eclipse/src/AmtToMp3.c).
-- - Menu (docs/eclipse/src/display.c): ShowMenuItem and WaitEvent; Loop is the loop of the menus around
--   it, Volume is SelectVolumMenu, Settings the other four menus, Pages holds proofs.
-- - Card (docs/eclipse/src/EmvCommon.c, EmvCallBack.c, Card.c, func.c): the sale by card. Amount is
--   FormatAmt_Str and FormatAmtToDisp_Api, Track the card's number (GetPanNumber, MatchTrack2AndPan,
--   GetCardNoFromTrack2Data, GetCardFromTrack), Data the fields of PosCom.stTrans with EmvSaveData and
--   GetEmvTrackData, Kernel the calls of the EMV kernels with App_CommonSelKernel, Contactless the four
--   transactions of a tapped card with EnterPIN, Contact the transaction of an inserted one (App_EmvTrans,
--   EmvCardProc), Sale is Card.c with DispCardNo,
--   Callback the choice of an application and the total of the stored sales
--   (EmvCallBack.c, ReadLog of file.c). A kernel answers by the moment, each call is logged with its
--   answer, and the code's `goto` and `return` are a result type. The children hold proofs.
-- - Prelude: what the parts share. Examples: the theorems at concrete inputs.
--
-- The parts meet in these places: mQTTMainThread calls the operations of Net through its Network
-- structure; TMSThread calls httpDownload and then checkAppUpdate; the threads of Qris share the
-- variables of `Shared`. Config gives the topics and the server that the MQTT thread uses. Within Tms
-- the download leaves files that are complete, and the installation takes them from the status file.
--
-- The menus start the sale by card, the QRIS payment and the remote upgrade; the sale announces its price
-- by AmtToMp3 and shares GetAmount's padding and the printing of numbers with Qris.
--
-- Conventions: a C string is the list of its bytes without the NUL. An int result is ℤ; lengths and
-- amounts that the code keeps non-negative are ℕ. Lines that only write the log are left out. Calls of
-- the platform, of the MQTT client, of the QR encoder, of the JSON library and of MD5 are parameters; an
-- MD5 context is the bytes that it has taken in. A write past a buffer, or a read of what was never set,
-- is an outcome of its own; where a read behind a buffer is not, the definition says so (get_certificate).
-- A char is an unsigned byte.
--
-- Fuel: dialling takes one unit for each round of about a second; the theorem on net_connect gives
-- the number that a time-out needs. read_lines has one unit for each byte of the settings buffer,
-- paths one for each byte of the message, decimal one for each digit, receive_rest one for each
-- missing byte, read_chunk one more than that, read_headers one for each header and http_download
-- one for each range (`turns`); the number of redirects is a parameter. recv_packet has one unit for
-- each receive, do_amt one for each of the four groups of an int; download_files takes one for each
-- file and piece, and send_blocks one for each block. reselect and transaction have one unit for
-- each application that a kernel names next, for which the code has no bound: `none` is a run that
-- goes on. The menus and the wait for a card take one key or event of a list for each turn. The
-- theorems on them say how much is enough or are stated for the fuel that the function itself gives.
--
-- Not modelled: file sizes of 2^31 bytes and more in a task (Tms_UnsolveGetTermTask); the drawing of
-- the screens and MenuThread (display.c); of the card payment the kernels' parameters and key tables
-- (AddCapkExample, the ...AddAppExp functions, initCtlsConfig, EmvInitDefParam), which are constants
-- handed to the platform, and the callbacks that the kernels make (EmvCallBack.c) for the amount and
-- the PIN of an inserted card; of tms_tms.c the debug output and Tms_UrlRecvPacket, which no call
-- reaches; SetCommMode of param.c, which is keyboard and screen; the logging and the test menus of
-- func.c; MD5 (tms_md5.c, a copy of the reference implementation), buildJson of AmtToMp3.c, start-up
-- and sound (main.c, sound.c), and the backend in Go (cmd, internal).
pub mod Prelude
pub mod Net
pub mod Monitor
pub mod Update
pub mod Qris
pub mod Config
pub mod Http
pub mod Tms
pub mod Base64
pub mod Speech
pub mod Menu
pub mod Card
mod Examples
