-- ===== src/Receiver/Unauthentic.antt =====
-- internal/receiver/handlers.go: requests that are not authentic make no difference to the engine.
use tracearr.Prelude.{string_eq}
use tracearr.Store.{Store}
use tracearr.Engine.State.{Engine}
use tracearr.Metrics.{Metrics}
