-- ===== src/Plugin/Factory.antt =====
-- PluginFactory (Factory.cpp): what the plugin's module gives to FireBreath.
use trezor_plugin.Prelude.{Bool, true, false, Option, none, some, List, [], ◌∷◌, ◌++◌, Bytes, codes}
use trezor_plugin.Libraries.Protobuf.{Protobuf}
use trezor_plugin.Libraries.FireBreath.{Logging}
use trezor_plugin.Plugin.Lifecycle.{PluginObject, new_plugin}

-- PluginFactory::createPlugin, whatever the MIME type.
abbrev pub create_plugin :
    {V : Type 0} (pb : Protobuf) → pb.Pool → (mimetype : Bytes) → PluginObject pb V
create_plugin pb pool mimetype = new_plugin pb pool

-- Whether hidapi is initialized, which it is from the loading of the plugin's module to its end.
pub record Module : Type 0 where
  pub initialized : Bool

-- globalPluginInitialize and globalPluginDeinitialize, by way of StaticInitialize and
-- StaticDeinitialize of BitcoinTrezorPlugin.
abbrev pub global_plugin_initialize : Module → Module
global_plugin_initialize m = record m { initialized = true }

abbrev pub global_plugin_deinitialize : Module → Module
global_plugin_deinitialize m = record m { initialized = false }

abbrev pub get_log_level : (log : Logging) → log.LogLevel
get_log_level log = log.level_debug

abbrev pub get_logging_methods :
    (log : Logging) → List (log.LogMethod × Bytes) → List (log.LogMethod × Bytes)
get_logging_methods log out_methods =
    out_methods ++ ((log.method_file, codes "/tmp/trezor.log") ∷ [])

-- getFactoryInstance: the static pointer is set, to `made`, by the first call.
abbrev pub get_factory_instance : {F : Type 0} → F → Option F → F × Option F
get_factory_instance made none = (made, some made)
get_factory_instance made (some factory) = (factory, some factory)
