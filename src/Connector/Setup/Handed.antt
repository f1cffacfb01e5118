-- ===== src/Connector/Setup/Handed.antt =====
-- What the clients of a connector log and count with: option.go, connector.go and client.go.
use grab_redis.Base.{◌≡◌, refl, List, [], ◌∷◌}
use grab_redis.Breaker.Options.{CbSetter}
use grab_redis.Connector.Setup.{
  Handle, nil, Fields, Setter, with_stats, with_logger, with_cb_options, apply_options,
  client_fields, connector_fields, handed_on,
}

-- The options that a caller writes.
pub data Choice : Type 0 where
  choose_stats choose_logger : Handle → Choice
  choose_cb_options : List CbSetter → Choice

unfoldable pub setters : List Choice → List Setter
setters [] = []
setters (choose_stats h ∷ cs) = with_stats h ∷ setters cs
setters (choose_logger h ∷ cs) = with_logger h ∷ setters cs
setters (choose_cb_options o ∷ cs) = with_cb_options o ∷ setters cs

-- The last one chosen, or the one before.
abbrev pub last_stats : Handle → List Choice → Handle
last_stats h [] = h
last_stats h (choose_stats h' ∷ cs) = last_stats h' cs
last_stats h (choose_logger h' ∷ cs) = last_stats h cs
last_stats h (choose_cb_options o ∷ cs) = last_stats h cs

abbrev pub last_logger : Handle → List Choice → Handle
last_logger h [] = h
last_logger h (choose_stats h' ∷ cs) = last_logger h cs
last_logger h (choose_logger h' ∷ cs) = last_logger h' cs
last_logger h (choose_cb_options o ∷ cs) = last_logger h cs

abbrev pub last_cb_options : List CbSetter → List Choice → List CbSetter
last_cb_options o [] = o
last_cb_options o (choose_stats h ∷ cs) = last_cb_options o cs
last_cb_options o (choose_logger h ∷ cs) = last_cb_options o cs
last_cb_options o (choose_cb_options o' ∷ cs) = last_cb_options o' cs

apply_options-setters :
    (cs : List Choice) (c : Fields)
    → apply_options (setters cs) c ≡ record {
      stats = last_stats c.stats cs;
      logger = last_logger c.logger cs;
      cb_options = last_cb_options c.cb_options cs;
    }
unfolding apply_options setters with_stats with_logger with_cb_options
apply_options-setters [] c = refl
apply_options-setters (choose_stats h ∷ cs) c = apply_options-setters cs (with_stats h c)
apply_options-setters (choose_logger h ∷ cs) c = apply_options-setters cs (with_logger h c)
apply_options-setters (choose_cb_options o ∷ cs) c = apply_options-setters cs (with_cb_options o c)

-- The clients of a connector have the stats client and the logger that its options chose last, and
-- the nil interface where the options chose none; the breaker's options are those chosen last, or the
-- defaults.
pub handed_on_lem :
    (defaults : List CbSetter) (cs : List Choice)
    → handed_on defaults (setters cs) ≡ record {
      stats = last_stats nil cs;
      logger = last_logger nil cs;
      cb_options = last_cb_options defaults cs;
    }
unfolding handed_on client_fields connector_fields apply_options with_stats with_logger
    with_cb_options
handed_on_lem defaults cs =
    apply_options-setters cs (record { stats = nil; logger = nil; cb_options = defaults })
