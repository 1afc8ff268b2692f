-- ===== src/Api/Attributes.antt =====
-- What a page finds on the plugin's objects: the constructors of DeviceAPI and PluginAPI (apis.cpp),
-- and createJSAPI (plugin.cpp).
use trezor_plugin.Prelude.{◌<◌, ◌^◌, ◌≡◌, refl, ◌∙◌, true, false, some, Bytes, codes, All}
use trezor_plugin.Prelude.Tests.{bytes_eq}
use trezor_plugin.Libraries.FireBreath.{JsAuto, Registers}
use trezor_plugin.Utils.Hex.{hex_encode_u32, IsHexDigit, read_hex, hex_encode_u32-reads}
use trezor_plugin.Config.{DeviceDescriptor, vendor_id, product_id, serial_number, path}

-- FBSTRING_PLUGIN_VERSION
abbrev pub plugin_version : Bytes
plugin_version = codes "1.0.0.0"

module _ (js : JsAuto) where
  -- DeviceAPI: the descriptor is kept beside what the page sees.
  pub record DeviceApi : Type 0 where
    pub device : DeviceDescriptor
    pub object : js.Object

  -- The constructor of DeviceAPI.
  unfoldable pub device_api : DeviceDescriptor → DeviceApi
  device_api device =
      let id = js.register_attribute (codes "id") (serial_number device) true js.new_object in
      let vendor =
        js.register_attribute (codes "vendorId") (hex_encode_u32 (vendor_id device)) true id in
      let product =
        js.register_attribute (codes "productId") (hex_encode_u32 (product_id device)) true
          vendor in
      record {
        device = device;
        object = js.register_attribute (codes "path") (path device) true product;
      }

  -- PluginAPI: its pointer to the plugin object, and what the page sees.
  pub record PluginApi (Plugin : Type 0) : Type 0 where
    pub plugin : Plugin
    pub object : js.Object

  -- The constructor of PluginAPI.
  abbrev pub plugin_api : {Plugin : Type 0} → Plugin → PluginApi Plugin
  plugin_api plugin =
      let version = js.register_attribute (codes "version") plugin_version true js.new_object in
      let call = js.register_method (codes "call") version in
      let close = js.register_method (codes "close") call in
      let devices = js.register_method (codes "devices") close in
      let configure = js.register_method (codes "configure") devices in
      record { plugin = plugin; object = js.register_method (codes "deriveChildNode") configure }

  -- BitcoinTrezorPlugin::createJSAPI
  abbrev pub create_jsapi : {Plugin : Type 0} → Plugin → PluginApi Plugin
  create_jsapi plugin = plugin_api plugin

  -- What the attributes of a DeviceAPI tell a page: the ids are texts of the digits 0 to 9 and a to
  -- f alone, and read as hexadecimal numbers they are those of the descriptor.
  pub record Shows (d : DeviceDescriptor) (o : js.Object) : Type 0 where
    pub id : js.get_attribute (codes "id") o ≡ some (serial_number d)
    pub vendor : Bytes
    pub vendor_attribute : js.get_attribute (codes "vendorId") o ≡ some vendor
    pub vendor_digits : All IsHexDigit vendor
    pub vendor_read : read_hex 0 vendor ≡ vendor_id d
    pub product : Bytes
    pub product_attribute : js.get_attribute (codes "productId") o ≡ some product
    pub product_digits : All IsHexDigit product
    pub product_read : read_hex 0 product ≡ product_id d
    pub path_attribute : js.get_attribute (codes "path") o ≡ some (path d)

  -- From the attributes of a DeviceAPI a page reads the serial number and the path of the device, and
  -- its vendor and product as texts of hexadecimal digits, 0 to 9 and a to f and nothing else, that
  -- denote the two ids, if the ids have 32 bits and FireBreath gives back what is registered.
  pub device_api-Shows :
      (d : DeviceDescriptor)
      → Registers js
      → vendor_id d < 2 ^ 32
      → product_id d < 2 ^ 32
      → Shows d (device_api d).object
  unfolding device_api bytes_eq
  device_api-Shows d laws v p = record {
    id = skip _ _ _ _ refl ∙ skip _ _ _ _ refl ∙ skip _ _ _ _ refl ∙ laws.registered _ _ _ _;
    vendor = hex_encode_u32 (vendor_id d);
    vendor_attribute = skip _ _ _ _ refl ∙ skip _ _ _ _ refl ∙ laws.registered _ _ _ _;
    vendor_digits = (hex_encode_u32-reads (vendor_id d) v).0;
    vendor_read = (hex_encode_u32-reads (vendor_id d) v).1;
    product = hex_encode_u32 (product_id d);
    product_attribute = skip _ _ _ _ refl ∙ laws.registered _ _ _ _;
    product_digits = (hex_encode_u32-reads (product_id d) p).0;
    product_read = (hex_encode_u32-reads (product_id d) p).1;
    path_attribute = laws.registered _ _ _ _;
  }
    where
      skip :
          (name name' text : Bytes) (o : js.Object)
          → bytes_eq name name' ≡ false
          → js.get_attribute name (js.register_attribute name' text true o)
            ≡ js.get_attribute name o
      skip name name' text o = laws.other name name' text true o
