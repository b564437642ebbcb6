-- ===== src/Config/Load.antt =====
-- `Load` of internal/config/config.go. toml.Unmarshal is a parameter: from a record and a text to
-- the record that it leaves and, where it fails, its message.
use teslausb_neo.Base.{String, Option, none, some}
use teslausb_neo.Host.{read_file, Host}
use teslausb_neo.Host.Io.{M, pure, ask, ◌>>=◌}
use teslausb_neo.Config.Types.{Config}
use teslausb_neo.Config.Defaults.{default_config}

abbrev pub Decoder : Type 0
Decoder = Config → String → Config × Option String

-- What Load returns: a configuration in every case, and an error or nil.
unfoldable pub load : Host → Decoder → String → M (Config × Option String)
load H decode path = do
  a ← ask H (read_file path)
  pure (elim a.fault [
    | some f ↦ (default_config, some f.message)
    | none ↦ decode default_config a.text
  ])
