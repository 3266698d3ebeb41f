-- ===== src/LiveApply/DryRun.antt =====
-- quant/trade/dry_run.py: the preview of a deployment, over the environment of the live apply.
use quant_strategies.Prelude.{ℕ, String, Bool, Option, none, some, if◌then◌else◌}
use quant_strategies.Prelude.Num.{Num}
use quant_strategies.Prelude.Effects.{Act, pure, raise, attempt, ◌>>=◌, ◌>>◌}
use quant_strategies.Order.{IntendedAction}
use quant_strategies.OrderPolicy.{intended_action}
use quant_strategies.LiveApply.{
  StrategyConfig, no_credential, ApplyError, adapter_not_found, validation, BarSource, Session,
  LiveEnv,
}
use quant_strategies.LiveApply.Cycle.{
  let_through, finally, as_validation, fitted, resolve_signal_source, notional_of,
}

pub record DryRunRequest (Q : Type 0) : Type 0 where
  pub strategy_id : ℕ
  pub strategy_vid : ℕ
  pub api_credential_id : ℕ
  pub app_id : ℕ
  pub internal_cusip : String
  pub qty : Q
  pub paper : Bool

pub record StrategyRow (C : Type 0) : Type 0 where
  pub strategy_nm : Option String
  pub config_json : StrategyConfig C

pub record DryRunReport (Q KP : Type 0) : Type 0 where
  pub strategy_id : ℕ
  pub strategy_vid : ℕ
  pub strategy_nm : String
  pub internal_cusip : String
  pub vendor_symbol : String
  pub app_id : ℕ
  pub paper : Bool
  pub qty : Q
  pub signal : Q
  pub intended_side : IntendedAction
  pub position_qty : Q
  pub data_as_of : String
  pub notional : Option Q
  pub bar_source : BarSource
  pub key_profile : Option KP

-- A session with the two further reads of a preview.
pub record DrySession (Q KP X W : Type 0) : Type 0 where
  pub session : Session Q X W
  pub get_last_price : String → Act W (ApplyError X) (Option Q)
  pub key_profile : Option KP

-- The live environment, the preflight of the repository and the sessions of a preview.
pub record DryEnv (Q K C P L KP X W : Type 0) : Type 0 where
  pub live : LiveEnv Q K C P L X W
  pub validate_dry_run : ℕ → DryRunRequest Q → Act W (ApplyError X) (StrategyRow C)
  pub create : ℕ → K → Bool → Act W (ApplyError X) (DrySession Q KP X W)

abbrev pub name_or : Option String → String
name_or none = ""
name_or (some name) = name

module _ {Q K C P L KP X W : Type 0} ⦃n : Num Q⦄ (env : DryEnv Q K C P L KP X W) where
  abbrev pub dry_report :
      DryRunRequest Q
      → StrategyRow C
      → Q × String
      → BarSource
      → Option KP
      → String
      → Q
      → Option Q
      → DryRunReport Q KP
  dry_report req row latest source profile symbol p price = record {
    strategy_id = req.strategy_id;
    strategy_vid = req.strategy_vid;
    strategy_nm = name_or row.strategy_nm;
    internal_cusip = req.internal_cusip;
    vendor_symbol = symbol;
    app_id = req.app_id;
    paper = req.paper;
    qty = req.qty;
    signal = latest.0;
    intended_side = intended_action latest.0 p;
    position_qty = p;
    data_as_of = latest.1;
    notional = notional_of req.qty price;
    bar_source = source;
    key_profile = profile;
  }

  unfoldable pub broker_report :
      DrySession Q KP X W
      → DryRunRequest Q
      → StrategyRow C
      → Q × String
      → BarSource
      → Act W (ApplyError X) (DryRunReport Q KP)
  broker_report s req row latest source =
      s.session.validate_for_dry_run req.internal_cusip req.app_id >>= (λ symbol.
        (λ w. let_through (s.session.adapter.get_position_qty symbol w)) >>= (λ p.
          s.get_last_price symbol
          >>= (λ price. pure (dry_report req row latest source s.key_profile symbol p price))))

  unfoldable pub with_dry_session :
      DryRunRequest Q
      → StrategyRow C
      → Q × String
      → BarSource
      → DrySession Q KP X W
      → Act W (ApplyError X) (DryRunReport Q KP)
  with_dry_session req row latest source s =
      s.session.connect
      >> (λ w. finally (broker_report s req row latest source w) s.session.disconnect)

  -- The signal of the preview, and its source. `compute_latest_position` runs the bar loader, which may
  -- store price bars: what it does to the world is part of that call.
  unfoldable pub preview_signal :
      DryRunRequest Q → StrategyRow C → Act W (ApplyError X) ((Q × String) × BarSource)
  preview_signal req row =
      env.live.fetch_result_payload req.strategy_id req.strategy_vid >>= (λ payload.
        fitted row.config_json.tm_interval_id >>= (λ id.
          resolve_signal_source env.live req.app_id none id >>= (λ source.
            (attempt (env.live.compute_latest_position row.config_json payload source.0)
              >>= as_validation)
            >>= (λ latest. pure (latest, source.1)))))

  unfoldable pub dry_with :
      DryRunRequest Q → StrategyRow C → Option K → Act W (ApplyError X) (DryRunReport Q KP)
  dry_with req row none = raise (validation no_credential)
  dry_with req row (some keys) = preview_signal req row >>= (λ preview.
      env.create req.app_id keys req.paper >>= with_dry_session req row preview.0 preview.1)

  unfoldable pub run_dry_run : ℕ → DryRunRequest Q → Act W (ApplyError X) (DryRunReport Q KP)
  run_dry_run user req = env.validate_dry_run user req >>= (λ row.
      if env.live.has_adapter req.app_id
      then env.live.decrypt_credential user req.api_credential_id >>= dry_with req row
      else raise (adapter_not_found req.app_id))
