-- ===== src/AppConfig/Types.antt =====
-- The types of internal/appconfig/config.go, `Defaults` and `applyOverrides`. A uint16 is a number.
use onboardd.Prelude.{ℕ, String, Bool, true, false, Option, none, some}
use onboardd.Connectivity.{Requirement}

pub record Product : Type 0 where
  pub name : String
  pub device_name : String

pub record Branding : Type 0 where
  pub logo : String
  pub primary_color : String
  pub background_color : String
  pub title : String
  pub subtitle : String

pub record Provisioning : Type 0 where
  pub ssid : String
  pub password_file : String

pub record Standalone : Type 0 where
  pub ssid : String
  pub password_file : String
  pub address : String

pub record Network : Type 0 where
  pub interface : String
  pub requirement : Requirement
  pub infrastructure_enabled : Bool
  pub standalone_enabled : Bool
  pub provisioning : Provisioning
  pub standalone : Standalone

pub record Portal : Type 0 where
  pub listener_port : ℕ
  pub password_file : String

pub record Handoff : Type 0 where
  pub application_label : String
  pub application_url : String
  pub health_check_url : String
  pub show_standalone_credentials : Bool

pub record Config : Type 0 where
  pub schema_version : ℕ
  pub product : Product
  pub branding : Branding
  pub network : Network
  pub portal : Portal
  pub handoff : Handoff

pub record Overrides : Type 0 where
  pub network_interface : Option String
  pub network_requirement : Option Requirement
  pub infrastructure_enabled : Option Bool
  pub standalone_enabled : Option Bool
  pub listener_port : Option ℕ

abbrev pub current_schema_version : ℕ
current_schema_version = 1

abbrev pub captive_public_port : ℕ
captive_public_port = 80

unfoldable pub defaults : Config
defaults = record {
  schema_version = current_schema_version;
  product = record { name = "Device"; device_name = "Device" };
  branding = record {
    logo = "";
    primary_color = "#cd2455";
    background_color = "#f8eff3";
    title = "Set up your device";
    subtitle = "Choose how this device should connect.";
  };
  network = record {
    interface = "wlan0";
    requirement = Requirement.local;
    infrastructure_enabled = true;
    standalone_enabled = true;
    provisioning = record {
      ssid = "{{ .ProductName }}-Setup-{{ .DeviceID }}";
      password_file = "/etc/onboardd/provisioning-password";
    };
    standalone = record {
      ssid = "{{ .ProductName }}-{{ .DeviceID }}";
      password_file = "/etc/onboardd/standalone-password";
      address = "10.42.0.1/24";
    };
  };
  portal = record { listener_port = 18080; password_file = "/etc/onboardd/admin-password" };
  handoff = record {
    application_label = "";
    application_url = "";
    health_check_url = "";
    show_standalone_credentials = false;
  };
}

abbrev pub over {ℓ} : {A : Type ℓ} → Option A → A → A
over none a = a
over (some b) a = b

unfoldable pub apply_overrides : Config → Overrides → Config
apply_overrides c o = record c {
  network = record c.network {
    interface = over o.network_interface c.network.interface;
    requirement = over o.network_requirement c.network.requirement;
    infrastructure_enabled = over o.infrastructure_enabled c.network.infrastructure_enabled;
    standalone_enabled = over o.standalone_enabled c.network.standalone_enabled;
  };
  portal = record c.portal { listener_port = over o.listener_port c.portal.listener_port };
}
