-- ===== src/T1s/Service/Tests.antt =====
-- Tests of the HTTP service, and an instance of its theorem.
use zephyr_start.Base.{
  Bool, Bool-cases, Every, List, [], ap, arith, codes, einval, false, if◌then◌else◌, inl, inr, neg,
  none, pos, refl, some, sym, true, ℕ, ℤ, ◌&&◌, ◌++◌, ◌==◌, ◌||◌, ◌∙◌, ◌∷◌, ◌≡◌, ◌≢◌,
}
use zephyr_start.T1s.Service.Harmless.{IsHarmless, node_steps-upload}
use zephyr_start.T1s.Service.{
  IsRouter, Method, Node, NodeEvent, Resource, Router, ends_thread, frees_slot, node_step,
  node_steps, serve, unregisters_client, hears, asks, get, post, other,
}
use zephyr_start.T1s.Firmware.{Loader, data_final, firmware_handler}
use zephyr_start.T1s.Defs.{Config, RgbCmd, hung_up, initial}
use mathlib.Core.List.{Memᴰ}

abbrev same_path : List ℕ → List ℕ → Bool
same_path [] [] = true
same_path (x ∷ p) (y ∷ q) = (x == y) && same_path p q
same_path _ _ = false

same_path-eq : (p q : List ℕ) → same_path p q ≡ true → p ≡ q
same_path-eq [] [] h = refl
same_path-eq [] (y ∷ q) h = cc
same_path-eq (x ∷ p) [] h = cc
same_path-eq (x ∷ p) (y ∷ q) h =
    let first : x ≡ y = ground arith in
    let rest : p ≡ q = same_path-eq p q (ground arith) in rw (first, rest) refl

abbrev same_method : Method → Method → Bool
same_method get get = true
same_method post post = true
same_method other other = true
same_method _ _ = false

same_method-eq : (m n : Method) → same_method m n ≡ true → m ≡ n
same_method-eq m n h = ground arith

abbrev supports : Method → List Method → Bool
supports m [] = false
supports m (n ∷ ns) = same_method m n || supports m ns

supports-Mem : (m : Method) (ms : List Method) → supports m ms ≡ true → Memᴰ m ms
supports-Mem m [] h = cc
supports-Mem m (n ∷ ns) h = elim (Bool-cases (same_method m n)) [
  | inl e ↦ Memᴰ.head (same_method-eq m n e)
  | inr e ↦ Memᴰ.tail (supports-Mem m ns (ground arith))
]

-- The first resource that fits.
abbrev first_match : Router
first_match [] m p = none
first_match (r ∷ rs) m p =
    let later = first_match rs m p in
    if same_path p r.path && supports m r.methods then some r else later

record IsMatch (rs : List Resource) (m : Method) (p : List ℕ) (r : Resource) : Type 0 where
  among : Memᴰ r rs
  path_same : p ≡ r.path
  method_in : Memᴰ m r.methods

first_match-IsMatch :
    (rs : List Resource) (m : Method) (p : List ℕ) {r : Resource}
    → first_match rs m p ≡ some r
    → IsMatch rs m p r
first_match-IsMatch [] m p h = cc
first_match-IsMatch (x ∷ rs) m p {r} h =
    elim (Bool-cases (same_path p x.path && supports m x.methods)) [
      | inl e ↦
          let is_first : x ≡ r = ground (arith, h, e) in
          record {
            among = Memᴰ.head (sym is_first);
            path_same = same_path-eq p x.path (ground arith) ∙ ap (λ y. y.path) is_first;
            method_in = supports-Mem m r.methods (rw (← is_first) (ground arith));
          }
      | inr e ↦
          let found : IsMatch rs m p r = first_match-IsMatch rs m p (ground (arith, h, e)) in
          record {
            among = Memᴰ.tail found.among;
            path_same = found.path_same;
            method_in = found.method_in;
          }
    ]

first_match-IsRouter : IsRouter first_match
first_match-IsRouter = record {
  registered = λ rs m p e. (first_match-IsMatch rs m p e).among;
  at_path = λ rs m p e. (first_match-IsMatch rs m p e).path_same;
  supported = λ rs m p e. (first_match-IsMatch rs m p e).method_in;
}

abbrev config : Config
config = record {
  red_period = 20000;
  green_period = 20000;
  blue_period = 20000;
  device_name = codes "t1s-node";
  app_version = codes "1.0.0";
  plca_node_id = 2;
}

abbrev no_command : List ℕ → ℤ × RgbCmd
no_command text = (neg einval, record { r = pos 0; g = pos 0; b = pos 0 })

-- A flash that holds its bytes.
abbrev flash : Loader (List ℕ)
flash = record {
  flash_img_init = λ w. (pos 0, []);
  flash_img_buffered_write = λ bytes final w. (pos 0, w ++ bytes);
  boot_request_upgrade = λ w. (pos 0, w);
  schedule_reboot = λ w. w;
}

abbrev at_boot : Node (List ℕ)
at_boot = record {
  served = record { device = initial; threads = []; leaving = []; unregistered = []; freed = [] };
  upload = record { fw_in_progress = false; fw_received = 0; world = 1 ∷ 2 ∷ [] };
}

-- The page, a client that hangs up, and a GET of the path of the firmware.
abbrev some_events : List NodeEvent
some_events =
    asks get (codes "/") 5 (data_final [])
    ∷ asks get (codes "/ws") 6 (data_final [])
    ∷ hears 0 (hung_up ∷ [])
    ∷ unregisters_client 0
    ∷ frees_slot 0
    ∷ ends_thread 0
    ∷ asks get (codes "/firmware") 7 (data_final (9 ∷ []))
    ∷ []

abbrev with_upload : List NodeEvent
with_upload = some_events ++ (asks post (codes "/firmware") 8 (data_final (9 ∷ [])) ∷ [])

uploaded :
    (node_steps config no_command flash first_match with_upload at_boot).upload.world ≡ 9 ∷ []
unfolding node_steps node_step serve firmware_handler
uploaded = refl

some_events-IsHarmless : Every some_events IsHarmless
some_events-IsHarmless = (inl get≢post, (inl get≢post, (tt, (tt, (tt, (tt, (inl get≢post, tt)))))))
  where
    get≢post : get ≢ post
    get≢post e = cc

node_steps-upload_example :
    (node_steps config no_command flash first_match some_events at_boot).upload ≡ at_boot.upload
node_steps-upload_example =
    node_steps-upload config no_command flash first_match first_match-IsRouter some_events at_boot
      some_events-IsHarmless
