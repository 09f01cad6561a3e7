-- ===== src/Adapters/Manager/Consistent.antt =====
-- What the Adapter Manager keeps (src/prodeo/adapters/manager.py): the log rebuilds the Session Registry,
-- and the Mediation Service has its invariant. Here each step that the methods are made of.
use command_center.Base.{ℕ, String, Option, ◌≡◌, true}
use command_center.Events.Envelope.{Payload}
use command_center.Events.Host.{Host, emit}
use command_center.Sessions.State.{SessionState}
use command_center.Sessions.Model.{SessionDescriptor}
use command_center.Sessions.Registry.{
  Registry, observe_state, upsert_discovered, touch, refresh_model, refresh_permission_mode,
}
use command_center.Sessions.Registry.Replay.{ignored}
use command_center.Sessions.Registry.Logged.{IsLogged, observe_state-IsLogged}
use command_center.Sessions.Registry.Durable.{
  upsert_discovered-IsLogged, touch-IsLogged, refresh_model-IsLogged,
  refresh_permission_mode-IsLogged,
}
use command_center.Sessions.Registry.Forward.{
  Forward, emit-Forward, observe_state-Forward, upsert_discovered-Forward, touch-Forward,
  refresh_model-Forward, refresh_permission_mode-Forward,
}
use command_center.Mediation.Model.{InteractionRequest, Answer}
use command_center.Mediation.Service.{
  Mediation, open_interaction, answer_interaction, cancel_native, timeout,
}
use command_center.Mediation.Service.Calls.{opens, answers, withdraws, times_out, call}
use command_center.Mediation.Service.Run.{IsAlive, IsFresh-same, call-IsAlive}
use command_center.Adapters.Manager.Quiet.{
  emit-IsDurable, open_interaction-IsDurable, answer_interaction-IsDurable, timeout-IsDurable,
  cancel_native-IsDurable,
}

pub record IsConsistent (h : Host) (r : Registry) (m : Mediation) : Type 0 where
  pub logged : IsLogged h r
  pub alive : IsAlive h m

-- Time and draws that go on leave the Mediation Service as it was.
Forward-IsAlive : {h h' : Host} {m : Mediation} → Forward h h' → IsAlive h m → IsAlive h' m
Forward-IsAlive {h} {h'} {m} f v = record {
  sound = v.sound;
  fresh = IsFresh-same h h' m m f.same f.further (λ id absent. absent) v.fresh;
}

module _ (h : Host) (r : Registry) (m : Mediation) (v : IsConsistent h r m) where
  pub emit-IsConsistent :
      (type_ node source : String) (session_id : Option ℕ) (payload : Payload)
      → ignored type_ ≡ true
      → IsConsistent (emit h type_ node source session_id payload) r m
  emit-IsConsistent type_ node source session_id payload other = record {
    logged = record {
      durable = emit-IsDurable h type_ node source session_id payload other v.logged.durable;
      keyed = v.logged.keyed;
    };
    alive = Forward-IsAlive (emit-Forward h type_ node source session_id payload) v.alive;
  }

  pub observe_state-IsConsistent :
      (sid : ℕ) (state : SessionState) (reason : String)
      → IsConsistent
          (observe_state h r sid state reason).host
          (observe_state h r sid state reason).registry
          m
  observe_state-IsConsistent sid state reason = record {
    logged = observe_state-IsLogged h r v.logged sid state reason;
    alive = Forward-IsAlive (observe_state-Forward h r sid state reason) v.alive;
  }

  pub upsert_discovered-IsConsistent :
      (adapter : String) (d : SessionDescriptor)
      → IsConsistent
          (upsert_discovered h r adapter d).host
          (upsert_discovered h r adapter d).registry
          m
  upsert_discovered-IsConsistent adapter d = record {
    logged = upsert_discovered-IsLogged h r v.logged adapter d;
    alive = Forward-IsAlive (upsert_discovered-Forward h r adapter d) v.alive;
  }

  pub touch-IsConsistent :
      (sid : ℕ) (at : Option ℕ) → IsConsistent (touch h r sid at).0 (touch h r sid at).1 m
  touch-IsConsistent sid at = record {
    logged = touch-IsLogged h r v.logged sid at;
    alive = Forward-IsAlive (touch-Forward h r sid at) v.alive;
  }

  pub refresh_model-IsConsistent :
      (sid : ℕ) (model : String)
      → IsConsistent (refresh_model h r sid model).0 (refresh_model h r sid model).1 m
  refresh_model-IsConsistent sid model = record {
    logged = refresh_model-IsLogged h r v.logged sid model;
    alive = Forward-IsAlive (refresh_model-Forward h r sid model) v.alive;
  }

  pub refresh_permission_mode-IsConsistent :
      (sid : ℕ) (mode : String)
      → IsConsistent
          (refresh_permission_mode h r sid mode).0
          (refresh_permission_mode h r sid mode).1
          m
  refresh_permission_mode-IsConsistent sid mode = record {
    logged = refresh_permission_mode-IsLogged h r v.logged sid mode;
    alive = Forward-IsAlive (refresh_permission_mode-Forward h r sid mode) v.alive;
  }

  pub open_interaction-IsConsistent :
      (request : InteractionRequest) (deliver : ℕ)
      → IsConsistent
          (open_interaction h m request deliver).host
          r
          (open_interaction h m request deliver).mediation
  unfolding call
  open_interaction-IsConsistent request deliver = record {
    logged = record {
      durable = open_interaction-IsDurable h m v.logged.durable request deliver;
      keyed = v.logged.keyed;
    };
    alive = call-IsAlive h m (opens request deliver) v.alive;
  }

  pub answer_interaction-IsConsistent :
      (id : ℕ) (a : Answer) (answered_by : String)
      → IsConsistent
          (answer_interaction h m id a answered_by).host
          r
          (answer_interaction h m id a answered_by).mediation
  unfolding call
  answer_interaction-IsConsistent id a answered_by = record {
    logged = record {
      durable = answer_interaction-IsDurable h m v.logged.durable id a answered_by;
      keyed = v.logged.keyed;
    };
    alive = call-IsAlive h m (answers id a answered_by) v.alive;
  }

  pub timeout-IsConsistent : (id : ℕ) → IsConsistent (timeout h m id).0 r (timeout h m id).1
  unfolding call
  timeout-IsConsistent id = record {
    logged = record { durable = timeout-IsDurable h m v.logged.durable id; keyed = v.logged.keyed };
    alive = call-IsAlive h m (times_out id) v.alive;
  }

  pub cancel_native-IsConsistent :
      (adapter native_id reason : String)
      → IsConsistent
          (cancel_native h m adapter native_id reason).host
          r
          (cancel_native h m adapter native_id reason).mediation
  unfolding call
  cancel_native-IsConsistent adapter native_id reason = record {
    logged = record {
      durable = cancel_native-IsDurable h m v.logged.durable adapter native_id reason;
      keyed = v.logged.keyed;
    };
    alive = call-IsAlive h m (withdraws adapter native_id reason) v.alive;
  }
