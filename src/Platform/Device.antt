-- ===== src/Platform/Device.antt =====
-- What the platform module reports of the device: `getDeviceUUID`, `getOSVersion`, `getDeviceInfo`.
pub mod Laws
use padlock_cloud.Prelude.{
  Option, none, some, [], Text, ◌≡◌, refl, ◌↔◌, Bool, true, false, is_some, Option-cases, ◌⊎◌, inl,
  inr,
}
use padlock_cloud.Promise.{Promise, pending, fulfilled, rejected, ◌>>=◌}
use padlock_cloud.Platform.{
  Eventual, Environment, Cordova, Electron, Node, electron_of, on_cordova, on_electron, on_node,
  is_cordova, is_electron, get_platform_name, get_app_version,
}

unfoldable pub get_device_uuid : Environment → Eventual Text
get_device_uuid e =
    on_cordova e.cordova (λ c. c.ready >>= (λ r. fulfilled c.uuid))
      (on_electron (electron_of e.node) (λ x. fulfilled x.settings_uuid) (fulfilled []))

unfoldable pub get_os_version : Environment → Eventual Text
get_os_version e =
    on_cordova e.cordova (λ c. c.ready >>= (λ r. fulfilled c.version))
      (on_node e.node (λ n. fulfilled n.release) (fulfilled []))

-- `none` is a property that is not set.
pub record DeviceInfo : Type 0 where
  pub platform : Text
  pub os_version : Text
  pub app_version : Text
  pub uuid : Text
  pub model : Option Text
  pub manufacturer : Option Text
  pub host_name : Option Text

abbrev pub host_of : Option Electron → Option Node → Option Text
host_of none n = none
host_of (some x) none = none
host_of (some x) (some n) = some n.host_name

abbrev pub with_host : Environment → DeviceInfo → DeviceInfo
with_host e i = record i { host_name = host_of (electron_of e.node) e.node }

abbrev pub with_device : Cordova → DeviceInfo → DeviceInfo
with_device c i = record i { model = some c.model; manufacturer = some c.manufacturer }

unfoldable pub get_device_info : Environment → Eventual DeviceInfo
get_device_info e = get_platform_name e >>= (λ p. get_os_version e >>= (λ o.
    get_app_version e >>= (λ a. get_device_uuid e >>= (λ u.
      let info : DeviceInfo = record {
        platform = p;
        os_version = o;
        app_version = a;
        uuid = u;
        model = none;
        manufacturer = none;
        host_name = none;
      } in
      on_cordova e.cordova (λ c. c.ready >>= (λ r. fulfilled (with_host e (with_device c info))))
        (fulfilled (with_host e info))))))
