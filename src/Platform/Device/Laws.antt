-- ===== src/Platform/Device/Laws.antt =====
-- When a device's information is found, and which properties it has.
use padlock_cloud.Prelude.{
  ◌≡◌, refl, sym, Option, none, some, Text, is_some, Option-cases, inl, inr,
}
use padlock_cloud.Promise.{pending, fulfilled, rejected, ◌>>=◌}
use padlock_cloud.Platform.{
  Eventual, Environment, Cordova, Electron, Node, ChromeApp, electron_of, on_cordova, on_electron,
  on_chrome, on_node, is_cordova, is_electron, get_platform_name, get_app_version,
}
use padlock_cloud.Platform.Device.{
  DeviceInfo, get_device_uuid, get_os_version, get_device_info, host_of, with_host, with_device,
}

-- A promise that was continued to a value was fulfilled.
bind_fulfilled :
    {A B : Type 0} (p : Eventual A) (f : A → Eventual B) {b : B}
    → p >>= f ≡ fulfilled b
    → (a : A) × (f a ≡ fulfilled b)
bind_fulfilled pending f e = cc
bind_fulfilled (rejected m) f e = cc
bind_fulfilled (fulfilled a) f e = (a, e)

value_of_fulfilled :
    {A : Type 0} {a b : A} → ◌≡◌ {A = Eventual A} (fulfilled a) (fulfilled b) → a ≡ b
value_of_fulfilled e = cc

host_lem : (n : Option Node) → is_some (host_of (electron_of n) n) ≡ is_some (electron_of n)
host_lem none = refl
host_lem (some n) = elim (Option-cases n.electron) [ inl h ↦ rw h refl | inr (x, h) ↦ rw h refl ]

last_step :
    (e : Environment) (cordova : Option Cordova) (start : DeviceInfo) {i : DeviceInfo}
    → start.model ≡ none
    → start.manufacturer ≡ none
    → on_cordova cordova
        (λ c. c.ready >>= (λ r. fulfilled (with_host e (with_device c start))))
        (fulfilled (with_host e start))
      ≡ fulfilled i
    → (is_some i.model ≡ is_some cordova)
      × (is_some i.manufacturer ≡ is_some cordova)
      × (is_some i.host_name ≡ is_some (electron_of e.node))
last_step e none start h k s =
    let same = value_of_fulfilled s in
    (rw (sym same, h) refl, rw (sym same, k) refl, rw (sym same) (host_lem e.node))
last_step e (some c) start h k s =
    let (r, s') = bind_fulfilled c.ready _ s in
    let same = value_of_fulfilled s' in
    (rw (sym same) refl, rw (sym same) refl, rw (sym same) (host_lem e.node))

-- The information that `getDeviceInfo` finds names the model and the manufacturer exactly on
-- Cordova, and the host exactly on Electron.
pub get_device_info_lem :
    (e : Environment) {i : DeviceInfo}
    → get_device_info e ≡ fulfilled i
    → (is_some i.model ≡ is_cordova e)
      × (is_some i.manufacturer ≡ is_cordova e)
      × (is_some i.host_name ≡ is_electron e)
unfolding get_device_info is_cordova is_electron
get_device_info_lem e h =
    let (p, h₁) = bind_fulfilled (get_platform_name e) _ h in
    let (o, h₂) = bind_fulfilled (get_os_version e) _ h₁ in
    let (a, h₃) = bind_fulfilled (get_app_version e) _ h₂ in
    let (u, h₄) = bind_fulfilled (get_device_uuid e) _ h₃ in
    last_step e e.cordova
      (record {
        platform = p;
        os_version = o;
        app_version = a;
        uuid = u;
        model = none;
        manufacturer = none;
        host_name = none;
      })
      refl refl h₄

-- The plugins that are there answer.
pub record Answers (e : Environment) : Type 0 where
  pub ready : (c : Cordova) → e.cordova ≡ some c → c.ready ≡ fulfilled tt
  pub version : (c : Cordova) → e.cordova ≡ some c → (v : Text) × (c.version_number ≡ fulfilled v)
  pub os : (c : ChromeApp) → e.chrome_app ≡ some c → (o : Text) × (c.os ≡ fulfilled o)

abbrev Settles : {A : Type 0} → Eventual A → Type 0
Settles {A = A} p = (a : A) × (p ≡ fulfilled a)

bind-Settles :
    {A B : Type 0} (p : Eventual A) (f : A → Eventual B)
    → Settles p
    → ((a : A) → Settles (f a))
    → Settles (p >>= f)
bind-Settles p f (a, h) k = rw h (k a)

on_cordova-Settles :
    {A : Type 0} (o : Option Cordova) (f : Cordova → Eventual A) (rest : Eventual A)
    → ((c : Cordova) → o ≡ some c → Settles (f c))
    → Settles rest
    → Settles (on_cordova o f rest)
on_cordova-Settles none f rest h k = k
on_cordova-Settles (some c) f rest h k = h c refl

on_electron-Settles :
    {A : Type 0} (o : Option Electron) (f : Electron → A) (rest : Eventual A)
    → Settles rest
    → Settles (on_electron o (λ x. fulfilled (f x)) rest)
on_electron-Settles none f rest k = k
on_electron-Settles (some x) f rest k = (f x, refl)

on_chrome-Settles :
    {A : Type 0} (o : Option ChromeApp) (f : ChromeApp → Eventual A) (rest : Eventual A)
    → ((c : ChromeApp) → o ≡ some c → Settles (f c))
    → Settles rest
    → Settles (on_chrome o f rest)
on_chrome-Settles none f rest h k = k
on_chrome-Settles (some c) f rest h k = h c refl

on_node-Settles :
    {A : Type 0} (o : Option Node) (f : Node → A) (rest : Eventual A)
    → Settles rest
    → Settles (on_node o (λ x. fulfilled (f x)) rest)
on_node-Settles none f rest k = k
on_node-Settles (some x) f rest k = (f x, refl)

module _ (e : Environment) (answers : Answers e) where
  when_ready :
      {A : Type 0} (f : Cordova → Eventual A) (rest : Eventual A)
      → ((c : Cordova) → e.cordova ≡ some c → Settles (f c))
      → Settles rest
      → Settles (on_cordova e.cordova (λ c. c.ready >>= (λ r. f c)) rest)
  when_ready f rest h k =
      on_cordova-Settles e.cordova _ rest
        (λ c p. bind-Settles c.ready _ (tt, answers.ready c p) (λ r. h c p)) k

  get_platform_name-Settles : Settles (get_platform_name e)
  unfolding get_platform_name
  get_platform_name-Settles = on_electron-Settles (electron_of e.node) _ _ (
      when_ready _ _ (λ c p. (c.platform, refl))
        (on_chrome-Settles e.chrome_app _ _
          (λ c p. bind-Settles c.os _ (answers.os c p) (λ o. (_, refl))) (_, refl)))

  get_app_version-Settles : Settles (get_app_version e)
  unfolding get_app_version
  get_app_version-Settles = on_electron-Settles (electron_of e.node) _ _ (
      when_ready _ _ (λ c p. answers.version c p)
        (on_chrome-Settles e.chrome_app _ _ (λ c p. (c.version, refl)) (_, refl)))

  get_os_version-Settles : Settles (get_os_version e)
  unfolding get_os_version
  get_os_version-Settles =
      when_ready _ _ (λ c p. (c.version, refl)) (on_node-Settles e.node _ _ (_, refl))

  get_device_uuid-Settles : Settles (get_device_uuid e)
  unfolding get_device_uuid
  get_device_uuid-Settles =
      when_ready _ _ (λ c p. (c.uuid, refl))
        (on_electron-Settles (electron_of e.node) _ _ (_, refl))

-- If each plugin that is there answers, `getDeviceInfo` finds the device's information.
pub get_device_info_settles :
    (e : Environment) → Answers e → (i : DeviceInfo) × (get_device_info e ≡ fulfilled i)
unfolding get_device_info
get_device_info_settles e answers = bind-Settles _ _ (get_platform_name-Settles e answers) (λ p.
    bind-Settles _ _ (get_os_version-Settles e answers) (λ o.
      bind-Settles _ _ (get_app_version-Settles e answers) (λ a.
        bind-Settles _ _ (get_device_uuid-Settles e answers)
          (λ u. when_ready e answers _ _ (λ c p. (_, refl)) (_, refl)))))
