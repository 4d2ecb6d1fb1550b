-- ===== src/Proxy/Loop.antt =====
-- src/proxy/rtsp_proxy_session.cpp: the loop of `RtspProxySession::run` around `select`.
use rpi_server.Prelude.{suc, Bool, not, List, [], ◌∷◌, ◌++◌, if◌then◌else◌, length}
use rpi_server.Bytes.{Bytes}
use rpi_server.ProxyConfig.{AppConfig}
use rpi_server.Proxy.{Session, After, going, over, and_then, client_loop, camera_loop}

-- What reading a socket gives: it was not readable, it is closed or failed, or bytes came.
pub data Read : Type 0 where
  unreadable closed : Read
  bytes : Bytes → Read

-- What `select` gives: an error, nothing to read, which an interrupt also comes to, or the two
-- sockets; the camera's counts where it is connected.
pub data Select : Type 0 where
  failed idle : Select
  readable : Read → Read → Select

-- A round: the running flag and what `select` gives.
pub record Wake : Type 0 where
  pub running : Bool
  pub select : Select

module _ (md5_hex : Bytes → Bytes) (config : AppConfig) (camera_connects : Bool)
    (camera_takes client_takes : List Bytes → Bytes → Bool) where
  unfoldable pub read_client : Read → Session → After
  unfolding client_loop
  read_client unreadable s = going s
  read_client closed s = over s
  read_client (bytes read) s =
      let buffer = s.client_buf ++ read in
      client_loop md5_hex config camera_connects camera_takes client_takes (suc (length buffer))
        (record s { client_buf = buffer })

  unfoldable pub read_open_camera : Read → Session → After
  unfolding camera_loop
  read_open_camera unreadable s = going s
  read_open_camera closed s = over s
  read_open_camera (bytes read) s =
      let buffer = s.camera_buf ++ read in
      camera_loop md5_hex config camera_connects camera_takes client_takes (suc (length buffer))
        (record s { camera_buf = buffer })

  unfoldable pub read_camera : Read → Session → After
  unfolding read_open_camera
  read_camera read s = if s.camera_open then read_open_camera read s else going s

  unfoldable pub on_select : Select → Session → After
  unfolding read_client read_camera and_then
  on_select failed s = over s
  on_select idle s = going s
  on_select (readable client camera) s = and_then (read_client client s) (λ t. read_camera camera t)

  -- `going` where the rounds end first.
  unfoldable pub run : List Wake → Session → After
  unfolding on_select and_then
  run [] s = going s
  run (w ∷ wakes) s =
      if not w.running then over s else and_then (on_select w.select s) (λ t. run wakes t)
