-- ===== src/T1s/Service/Harmless.antt =====
-- Which requests leave the firmware alone, in app/demos/ethernet_bridge/t1s_device/src/main.c.
use zephyr_start.Base.{
  Every, List, Option, [], ap, codes, inl, inr, none, refl, some, sym, ℕ, ℤ, ◌∙◌, ◌∷◌, ◌≡◌, ◌≢◌,
  ◌⊎◌,
}
use zephyr_start.T1s.Threads.{
  IsServed, turn-IsServed, unregisters_socket, turn, comes, reads, frees, ends,
}
use zephyr_start.T1s.Service.{
  Handler, IsRouter, Method, Node, NodeEvent, Resource, Router, ends_thread, firmware, frees_slot,
  fw_resource, node_step, node_steps, serve, t1s_http_service, unregisters_client, websocket, hears,
  post, page, asks,
}
use zephyr_start.T1s.Firmware.{Loader, Status}
use zephyr_start.T1s.Defs.{Config, RgbCmd}
use mathlib.Core.List.{Memᴰ}

page≢firmware : page ≢ firmware
page≢firmware e = cc

websocket≢firmware : websocket ≢ firmware
websocket≢firmware e = cc

Handler-cases : (h : Handler) → (h ≡ page) ⊎ (h ≡ websocket) ⊎ (h ≡ firmware)
Handler-cases page = inl refl
Handler-cases websocket = inr (inl refl)
Handler-cases firmware = inr (inr refl)

only_firmware : {r : Resource} → Memᴰ r t1s_http_service → r.cb ≡ firmware → r ≡ fw_resource
only_firmware (Memᴰ.head e) f = absurd (page≢firmware (sym (ap (λ x. x.cb) e) ∙ f))
only_firmware (Memᴰ.tail (Memᴰ.head e)) f = absurd (websocket≢firmware (sym (ap (λ x. x.cb) e) ∙ f))
only_firmware (Memᴰ.tail (Memᴰ.tail (Memᴰ.head e))) f = e
only_firmware (Memᴰ.tail (Memᴰ.tail (Memᴰ.tail past))) f = elim past [ ]

only_post : {m : Method} → Memᴰ m (post ∷ []) → m ≡ post
only_post (Memᴰ.head e) = e
only_post (Memᴰ.tail past) = elim past [ ]

-- Not a POST to the path of the firmware.
abbrev pub IsHarmless : NodeEvent → Type 0
IsHarmless (asks m p sock s) = (m ≢ post) ⊎ (p ≢ codes "/firmware")
IsHarmless (hears i inputs) = Unit
IsHarmless (unregisters_client i) = Unit
IsHarmless (frees_slot i) = Unit
IsHarmless (ends_thread i) = Unit

module _ {W : Type 0} (c : Config) (json_obj_parse : List ℕ → ℤ × RgbCmd) (l : Loader W)
    (route : Router) (k : IsRouter route) where
  -- Which resource has firmware_handler, and how it is reached.
  firmware_post :
      (m : Method) (p : List ℕ) {r : Resource}
      → route t1s_http_service m p ≡ some r
      → r.cb ≡ firmware
      → (m ≡ post) × (p ≡ codes "/firmware")
  firmware_post m p {r} e f =
      let found = only_firmware (k.registered t1s_http_service m p e) f in
      (
        only_post (rw (← ap (λ x. x.methods) found) (k.supported t1s_http_service m p e)),
        k.at_path t1s_http_service m p e ∙ ap (λ x. x.path) found,
      )

  serve-upload :
      (o : Option Resource) (sock : ℕ) (s : Status) (n : Node W)
      → ((r : Resource) → o ≡ some r → r.cb ≢ firmware)
      → (serve c json_obj_parse l o sock s n).upload ≡ n.upload
  unfolding serve
  serve-upload none sock s n h = refl
  serve-upload (some r) sock s n h = elim (Handler-cases r.cb) [
    | inl e ↦ rw e refl
    | inr (inl e) ↦ rw e refl
    | inr (inr e) ↦ absurd (h r refl e)
  ]

  serve-IsServed :
      (o : Option Resource) (sock : ℕ) (s : Status) (n : Node W)
      → IsServed n.served
      → IsServed (serve c json_obj_parse l o sock s n).served
  unfolding serve
  serve-IsServed none sock s n v = v
  serve-IsServed (some r) sock s n v = elim (Handler-cases r.cb) [
    | inl e ↦ rw e v
    | inr (inl e) ↦ rw e (turn-IsServed c json_obj_parse (comes sock) n.served v)
    | inr (inr e) ↦ rw e v
  ]

  -- Whatever is asked of the server and whatever the clients send, each taken slot keeps its one
  -- thread and the colour its range.
  pub node_steps-IsServed :
      (es : List NodeEvent) (n : Node W)
      → IsServed n.served
      → IsServed (node_steps c json_obj_parse l route es n).served
  unfolding node_steps node_step
  node_steps-IsServed [] n v = v
  node_steps-IsServed (asks m p sock s ∷ es) n v =
      let resource = route t1s_http_service m p in
      node_steps-IsServed es (serve c json_obj_parse l resource sock s n)
        (serve-IsServed resource sock s n v)
  node_steps-IsServed (hears i inputs ∷ es) n v =
      let heard : Node W = record n { served = turn c json_obj_parse (reads i inputs) n.served } in
      node_steps-IsServed es heard (turn-IsServed c json_obj_parse (reads i inputs) n.served v)
  node_steps-IsServed (unregisters_client i ∷ es) n v =
      let moved : Node W = record n {
        served = turn c json_obj_parse (unregisters_socket i) n.served;
      } in
      node_steps-IsServed es moved
        (turn-IsServed c json_obj_parse (unregisters_socket i) n.served v)
  node_steps-IsServed (frees_slot i ∷ es) n v =
      let moved : Node W = record n { served = turn c json_obj_parse (frees i) n.served } in
      node_steps-IsServed es moved (turn-IsServed c json_obj_parse (frees i) n.served v)
  node_steps-IsServed (ends_thread i ∷ es) n v =
      let moved : Node W = record n { served = turn c json_obj_parse (ends i) n.served } in
      node_steps-IsServed es moved (turn-IsServed c json_obj_parse (ends i) n.served v)

  -- On a server that chooses a registered resource of the path and the method of the request: where no
  -- request is a POST to `/firmware`, the upload and the flash are untouched, whatever else is asked of
  -- the server and whatever the clients send.
  pub node_steps-upload :
      (es : List NodeEvent) (n : Node W)
      → Every es IsHarmless
      → (node_steps c json_obj_parse l route es n).upload ≡ n.upload
  unfolding node_steps node_step
  node_steps-upload [] n _ = refl
  node_steps-upload (asks m p sock s ∷ es) n (harmless, rest) =
      let resource = route t1s_http_service m p in
      node_steps-upload es (serve c json_obj_parse l resource sock s n) rest
      ∙ serve-upload resource sock s n (λ r e f.
        let (posted, at) = firmware_post m p e f in
        elim harmless [ inl not_post ↦ not_post posted | inr elsewhere ↦ elsewhere at ])
  node_steps-upload (hears i inputs ∷ es) n (_, rest) =
      node_steps-upload es (record n { served = turn c json_obj_parse (reads i inputs) n.served })
        rest
  node_steps-upload (unregisters_client i ∷ es) n (_, rest) =
      node_steps-upload es
        (record n { served = turn c json_obj_parse (unregisters_socket i) n.served }) rest
  node_steps-upload (frees_slot i ∷ es) n (_, rest) =
      node_steps-upload es (record n { served = turn c json_obj_parse (frees i) n.served }) rest
  node_steps-upload (ends_thread i ∷ es) n (_, rest) =
      node_steps-upload es (record n { served = turn c json_obj_parse (ends i) n.served }) rest
