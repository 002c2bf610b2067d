-- ===== src/T1s/Service.antt =====
-- The HTTP service of app/demos/ethernet_bridge/t1s_device/src/main.c: its resources, and the device as the
-- server and the threads of the clients drive it.
pub mod Harmless
mod Tests
use zephyr_start.Base.{List, Option, [], codes, none, some, ℕ, ℤ, ◌∷◌, ◌≡◌}
use zephyr_start.T1s.Threads.{Served, unregisters_socket, turn, comes, reads, frees, ends}
use zephyr_start.T1s.Firmware.{Loader, Status, Upload, firmware_handler}
use zephyr_start.T1s.Defs.{Config, Input, RgbCmd}
use mathlib.Core.List.{Memᴰ}

-- The methods of HTTP that the resources name; `other` is any further one.
pub data Method : Type 0 where
  get post other : Method

-- What serves a resource: the web page, ws_setup_cb, or firmware_handler.
pub data Handler : Type 0 where
  page websocket firmware : Handler

-- A resource as it is registered: its path, `bitmask_of_supported_http_methods`, and its `cb`.
pub record Resource : Type 0 where
  pub path : List ℕ
  pub methods : List Method
  pub cb : Handler

abbrev pub index_resource : Resource
index_resource = record { path = codes "/"; methods = get ∷ []; cb = page }

abbrev pub ws_resource : Resource
ws_resource = record { path = codes "/ws"; methods = get ∷ []; cb = websocket }

abbrev pub fw_resource : Resource
fw_resource = record { path = codes "/firmware"; methods = post ∷ []; cb = firmware }

abbrev pub t1s_http_service : List Resource
t1s_http_service = index_resource ∷ ws_resource ∷ fw_resource ∷ []

-- The server's choice of the resource for a request: `none` is an error page.
abbrev pub Router : Type 0
Router = List Resource → Method → List ℕ → Option Resource

-- As it is documented: the resource is a registered one of that path, and supports the method.
pub record IsRouter (route : Router) : Type 0 where
  pub registered :
      (rs : List Resource) (m : Method) (p : List ℕ) {r : Resource}
      → route rs m p ≡ some r
      → Memᴰ r rs
  pub at_path :
      (rs : List Resource) (m : Method) (p : List ℕ) {r : Resource}
      → route rs m p ≡ some r
      → p ≡ r.path
  pub supported :
      (rs : List Resource) (m : Method) (p : List ℕ) {r : Resource}
      → route rs m p ≡ some r
      → Memᴰ m r.methods

-- A request, with the socket of its connection and, for a dynamic resource, the status of its data;
-- or some inputs that the thread of a client reads, or what it does after its loop.
pub data NodeEvent : Type 0 where
  asks : Method → List ℕ → ℕ → Status → NodeEvent
  hears : ℕ → List Input → NodeEvent
  unregisters_client frees_slot ends_thread : ℕ → NodeEvent

-- The state of the whole file: the colour, the clients and their threads, and the upload.
pub record Node (W : Type 0) : Type 0 where
  pub served : Served
  pub upload : Upload W

module _ {W : Type 0} (c : Config) (json_obj_parse : List ℕ → ℤ × RgbCmd) (l : Loader W) where
  -- A resource is served by its `cb`; the page changes nothing.
  unfoldable pub serve : Option Resource → ℕ → Status → Node W → Node W
  serve none sock s n = n
  serve (some r) sock s n = elim r.cb [
    | page ↦ n
    | websocket ↦ record n { served = turn c json_obj_parse (comes sock) n.served }
    | firmware ↦ record n { upload = (firmware_handler l s n.upload).1 }
  ]

module _ {W : Type 0} (c : Config) (json_obj_parse : List ℕ → ℤ × RgbCmd) (l : Loader W)
    (route : Router) where
  unfoldable pub node_step : NodeEvent → Node W → Node W
  unfolding serve
  node_step (asks m p sock s) n = serve c json_obj_parse l (route t1s_http_service m p) sock s n
  node_step (hears i inputs) n = record n {
    served = turn c json_obj_parse (reads i inputs) n.served;
  }
  node_step (unregisters_client i) n = record n {
    served = turn c json_obj_parse (unregisters_socket i) n.served;
  }
  node_step (frees_slot i) n = record n { served = turn c json_obj_parse (frees i) n.served }
  node_step (ends_thread i) n = record n { served = turn c json_obj_parse (ends i) n.served }

  unfoldable pub node_steps : List NodeEvent → Node W → Node W
  unfolding node_step
  node_steps [] n = n
  node_steps (e ∷ es) n = node_steps es (node_step e n)
