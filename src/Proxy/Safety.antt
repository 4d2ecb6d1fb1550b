-- ===== src/Proxy/Safety.antt =====
-- src/proxy/rtsp_proxy_session.cpp: the whole of `RtspProxySession::run`.
use rpi_server.Prelude.{◌∙◌, suc, ◌++◌, ◌≡◌, refl, Bool, true, not, List, [], ◌∷◌, if_elim, length}
use rpi_server.Bytes.{Bytes}
use rpi_server.ProxyConfig.{AppConfig}
use rpi_server.Proxy.{Session, After, going, over, spinning, null_rewriter}
use rpi_server.Proxy.Loop.{
  Read, unreadable, closed, bytes, Select, failed, idle, readable, Wake, read_client,
  read_open_camera, read_camera, on_select, run,
}
use rpi_server.Proxy.Invariant.{
  IsConsistent, Continues, IsFine, and_then-IsFine, client_loop-IsFine,
}
use rpi_server.Proxy.Responses.{camera_loop-IsFine}

-- What continues a session that continues `s` continues `s`.
Continues-trans :
    (config : AppConfig) (s t u : Session)
    → Continues config s t
    → Continues config t u
    → Continues config s u
Continues-trans config s t u (_, h) (c, k) =
    (c, λ up. let (a, b, d) = h up in let (e, f, g) = k a in (e, f ∙ b, g ∙ d))

IsFine-trans :
    (config : AppConfig) (s t : Session) (a : After)
    → Continues config s t
    → IsFine config t a
    → IsFine config s a
IsFine-trans config s t (going u) h f = Continues-trans config s t u h f
IsFine-trans config s t (over u) h f = _
IsFine-trans config s t spinning h f = _
IsFine-trans config s t null_rewriter h f = f

itself : (config : AppConfig) (s : Session) → IsConsistent config s → Continues config s s
itself config s c = (c, λ up. (up, refl, refl))

module _ (md5_hex : Bytes → Bytes) (config : AppConfig) (camera_connects : Bool)
    (camera_takes client_takes : List Bytes → Bytes → Bool) where
  read_client-IsFine :
      (read : Read) (s t : Session)
      → Continues config s t
      → IsFine config s
          (read_client md5_hex config camera_connects camera_takes client_takes read t)
  unfolding read_client
  read_client-IsFine unreadable s t h = h
  read_client-IsFine closed s t h = _
  read_client-IsFine (bytes read) s t h =
      client_loop-IsFine md5_hex config camera_connects camera_takes client_takes s
        (suc (length (t.client_buf ++ read))) (record t { client_buf = t.client_buf ++ read }) h

  read_open_camera-IsFine :
      (read : Read) (t : Session)
      → t.camera_open ≡ true
      → IsConsistent config t
      → IsFine config t
          (read_open_camera md5_hex config camera_connects camera_takes client_takes read t)
  unfolding read_open_camera
  read_open_camera-IsFine unreadable t up c = itself config t c
  read_open_camera-IsFine closed t up c = _
  read_open_camera-IsFine (bytes read) t up c =
      camera_loop-IsFine md5_hex config camera_connects camera_takes client_takes t
        (suc (length (t.camera_buf ++ read))) (record t { camera_buf = t.camera_buf ++ read }) up
        (c, λ up. (up, refl, refl))

  read_camera-IsFine :
      (read : Read) (t : Session)
      → IsConsistent config t
      → IsFine config t
          (read_camera md5_hex config camera_connects camera_takes client_takes read t)
  unfolding read_camera
  read_camera-IsFine read t c =
      if_elim (IsFine config t) t.camera_open (λ up. read_open_camera-IsFine read t up c)
        (λ down. itself config t c)

  on_select-IsFine :
      (select : Select) (s t : Session)
      → Continues config s t
      → IsFine config s
          (on_select md5_hex config camera_connects camera_takes client_takes select t)
  unfolding on_select
  on_select-IsFine failed s t h = _
  on_select-IsFine idle s t h = h
  on_select-IsFine (readable client camera) s t h =
      and_then-IsFine md5_hex config camera_connects camera_takes client_takes s
        (read_client md5_hex config camera_connects camera_takes client_takes client t) _
        (read_client-IsFine client s t h)
        (λ u k. IsFine-trans config s u _ k (read_camera-IsFine camera u k.0))

  run-Continues :
      (wakes : List Wake) (s t : Session)
      → Continues config s t
      → IsFine config s (run md5_hex config camera_connects camera_takes client_takes wakes t)
  unfolding run
  run-Continues [] s t h = h
  run-Continues (w ∷ wakes) s t h =
      if_elim (IsFine config s) (not w.running) (λ stop. _)
        λ go.
          and_then-IsFine md5_hex config camera_connects camera_takes client_takes s
            (on_select md5_hex config camera_connects camera_takes client_takes w.select t) _
            (on_select-IsFine w.select s t h) (λ u k. run-Continues wakes s u k)

  -- Whatever the client and the camera send and take, a consistent session never uses a rewriter
  -- that is not there. While it goes on it stays consistent: without a channel, a rewriter, a
  -- camera and a request, or with a channel below the number of channels, the rewriter for it and a
  -- connected camera. Once it has a camera its channel and its rewriter stay.
  pub run-IsFine :
      (wakes : List Wake) (s : Session)
      → IsConsistent config s
      → IsFine config s (run md5_hex config camera_connects camera_takes client_takes wakes s)
  run-IsFine wakes s c = run-Continues wakes s s (itself config s c)
