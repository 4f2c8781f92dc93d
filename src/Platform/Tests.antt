-- ===== src/Platform/Tests.antt =====
-- The platform module at concrete environments.
use padlock_cloud.Prelude.{◌≡◌, refl, true, none, some, [], codes}
use padlock_cloud.Promise.{fulfilled}
use padlock_cloud.Platform.{
  Environment, Cordova, is_ios, is_android, is_chrome_os, get_platform_name, is_platform,
  is_cordova, is_electron, is_chrome_app,
}
use padlock_cloud.Platform.Device.{DeviceInfo, get_device_info, get_device_uuid, get_os_version}

abbrev phone : Cordova
phone = record {
  ready = fulfilled tt;
  copy = λ text. fulfilled tt;
  paste = fulfilled (codes "copied");
  version_number = fulfilled (codes "2.0");
  platform = codes "iOS";
  uuid = codes "u1";
  version = codes "11";
  model = codes "X";
  manufacturer = codes "Apple";
}

abbrev on_phone : Environment
on_phone = record {
  node = none;
  cordova = some phone;
  chrome_app = none;
  language = none;
  touch = true;
  dom_clipboard = [];
}

abbrev phone_info : DeviceInfo
phone_info = record {
  platform = codes "iOS";
  os_version = codes "11";
  app_version = codes "2.0";
  uuid = codes "u1";
  model = some (codes "X");
  manufacturer = some (codes "Apple");
  host_name = none;
}

get_device_info_phone : get_device_info on_phone ≡ fulfilled phone_info
unfolding get_device_info get_platform_name get_os_version get_device_uuid
    padlock_cloud.Platform.get_app_version
get_device_info_phone = refl
