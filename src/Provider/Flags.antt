-- ===== src/Provider/Flags.antt =====
-- cmd/provider/main.go: the flags, which kingpin parses.
use provider_strapi.Prelude.{List, [], ◌∷◌, Option, none, some, Bool}
use provider_strapi.Prelude.Int.{ℤ}
use provider_strapi.Text.{Text, codes}

pub data FlagKind : Type 0 where
  bool_flag int_flag duration_flag string_flag : FlagKind

-- a flag of the command line, without its help text
pub record FlagSpec : Type 0 where
  pub name : Text
  pub kind : FlagKind
  pub short : Option Text
  pub default : Option Text
  pub envar : Option Text

-- kingpin, whose application takes the environment too (`DefaultEnvars`)
pub record Kingpin : Type 1 where
  pub Values : Type 0
  -- `app.Parse`; `none` is an error, at which `MustParse` ends the program
  pub parse : List FlagSpec → List Text → Option Values
  pub bool_value : Values → Text → Bool
  pub int_value : Values → Text → ℤ
  -- in nanoseconds
  pub duration_value : Values → Text → ℤ
  pub string_value : Values → Text → Text

-- the variables that the flags are read into
pub record Flags : Type 0 where
  pub debug : Bool
  pub leader_election : Bool
  pub sync_interval : ℤ
  pub poll_interval : ℤ
  pub poll_state_metric_interval : ℤ
  pub max_reconcile_rate : ℤ
  pub enable_management_policies : Bool
  pub enable_change_logs : Bool
  pub changelogs_socket_path : Text

unfoldable pub flag_specs : List FlagSpec
flag_specs =
    record {
      name = codes "debug";
      kind = bool_flag;
      short = some (codes "d");
      default = none;
      envar = none;
    }
    ∷ record {
      name = codes "leader-election";
      kind = bool_flag;
      short = some (codes "l");
      default = some (codes "false");
      envar = some (codes "LEADER_ELECTION");
    }
    ∷ record {
      name = codes "sync";
      kind = duration_flag;
      short = some (codes "s");
      default = some (codes "1h");
      envar = none;
    }
    ∷ record {
      name = codes "poll";
      kind = duration_flag;
      short = none;
      default = some (codes "1m");
      envar = none;
    }
    ∷ record {
      name = codes "poll-state-metric";
      kind = duration_flag;
      short = none;
      default = some (codes "5s");
      envar = none;
    }
    ∷ record {
      name = codes "max-reconcile-rate";
      kind = int_flag;
      short = none;
      default = some (codes "10");
      envar = none;
    }
    ∷ record {
      name = codes "enable-management-policies";
      kind = bool_flag;
      short = none;
      default = some (codes "true");
      envar = some (codes "ENABLE_MANAGEMENT_POLICIES");
    }
    ∷ record {
      name = codes "enable-changelogs";
      kind = bool_flag;
      short = none;
      default = some (codes "false");
      envar = some (codes "ENABLE_CHANGE_LOGS");
    }
    ∷ record {
      name = codes "changelogs-socket-path";
      kind = string_flag;
      short = none;
      default = some (codes "/var/run/changelogs/changelogs.sock");
      envar = some (codes "CHANGELOGS_SOCKET_PATH");
    }
    ∷ []

unfoldable pub read_flags : (k : Kingpin) → k.Values → Flags
read_flags k v = record {
  debug = k.bool_value v (codes "debug");
  leader_election = k.bool_value v (codes "leader-election");
  sync_interval = k.duration_value v (codes "sync");
  poll_interval = k.duration_value v (codes "poll");
  poll_state_metric_interval = k.duration_value v (codes "poll-state-metric");
  max_reconcile_rate = k.int_value v (codes "max-reconcile-rate");
  enable_management_policies = k.bool_value v (codes "enable-management-policies");
  enable_change_logs = k.bool_value v (codes "enable-changelogs");
  changelogs_socket_path = k.string_value v (codes "changelogs-socket-path");
}
