-- ===== src/Middleware/Transparency.antt =====
-- usageCaptureWriter of internal/middleware/ratelimit.go against the bare writer.
use llm_gateway.Base.{◌≡◌, false, Option, List, ℤ}
use llm_gateway.Middleware.Writer.{Bytes, ResponseWriter, WriterLaws}
use llm_gateway.Middleware.Capture.{wrap, finish, Action, captured, direct}
use llm_gateway.Middleware.Follows.{IsOrderly, captured-Follows, finish-Follows}

-- Where the bare writer's writes do not fail: after any calls of a handler that sets its headers
-- before the first status and sends no status below 200, and the final flush, the client has
-- received through the captured writer what the bare writer would have sent it.
pub captured_transparent :
    {W : Type 0} (h : ResponseWriter W) (laws : WriterLaws h)
    (sound : (w : W) (b : Bytes) → h.fails w b ≡ false) (usage : Bytes → Option ℤ) (w : W)
    (acts : List Action)
    → IsOrderly acts
    → (finish h usage (captured h (wrap w) acts)).0 ≡ direct h w acts
captured_transparent h laws sound usage w acts orderly =
    finish-Follows h laws sound usage _ _ (captured-Follows h laws sound acts w orderly)
