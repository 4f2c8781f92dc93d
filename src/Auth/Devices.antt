-- ===== src/Auth/Devices.antt =====
-- What the server keeps of a device (padlockcloud/device.go). The table of names of iOS devices is an
-- argument.
use padlock_cloud.Prelude.{
  not, ◌&&◌, Option, none, some, [], ◌++◌, Text, codes, text_eq, if◌then◌else◌,
}
use padlock_cloud.Auth.{Device, is_empty}

unfoldable pub platform_display_name : Text → Text
platform_display_name platform =
    if text_eq platform (codes "darwin")
    then codes "MacOS"
    else (if text_eq platform (codes "win32") then codes "Windows" else platform)

-- A field that a header that is set replaces.
unfoldable pub updated : Text → Text → Text
updated header old = if is_empty header then old else header

-- The first of two headers that is set.
unfoldable pub first_set : Text → Text → Text
first_set a b = if is_empty a then b else a

-- `r.Header.Get` is a function from names to values.
unfoldable pub update_from_request : (Text → Text) → Device → Device
unfolding updated first_set
update_from_request header d = record d {
  os_version = updated (header (codes "X-Device-OS-Version")) d.os_version;
  host_name = updated (header (codes "X-Device-Hostname")) d.host_name;
  app_version =
      updated
        (first_set (header (codes "X-Device-App-Version")) (header (codes "X-Client-App-Version")))
        d.app_version;
}

unfoldable pub device_from_request : (Text → Text) → Option Device
unfolding first_set update_from_request
device_from_request header =
    let platform =
      first_set (header (codes "X-Device-Platform")) (header (codes "X-Client-Platform")) in
    if is_empty platform
    then none
    else some (
        update_from_request header (record {
          platform = platform;
          uuid = header (codes "X-Device-UUID");
          manufacturer = header (codes "X-Device-Manufacturer");
          model = header (codes "X-Device-Model");
          os_version = [];
          host_name = [];
          app_version = [];
        }))

module _ (ios_devices : Text → Option Text) where
  abbrev or_model : Text → Option Text → Text
  or_model model none = model
  or_model model (some m) = m

  unfoldable pub description : Device → Text
  unfolding platform_display_name
  description d =
      let desc =
        if not (is_empty d.host_name)
        then d.host_name
        else (if not (is_empty d.model)
            then or_model d.model (ios_devices d.model)
            else platform_display_name d.platform ++ codes " Device") in
      if not (is_empty d.platform) && not (is_empty d.os_version)
      then desc
        ++ (codes " ("
            ++ (platform_display_name d.platform ++ (codes " " ++ (d.os_version ++ codes ")"))))
      else desc
