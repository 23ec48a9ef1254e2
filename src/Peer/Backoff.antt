-- ===== src/Peer/Backoff.antt =====
-- The delays between attempts: `_retryFailedViewerConnection` and `_attemptReconnect`.
pub mod Bounds
use ninja_vst3_plugin.Prelude.{ℕ, ◌-◌, ◌*◌, ◌^◌, min}

-- Math.min(30000, 2000 * Math.pow(2, Math.min(failedConnection.retryCount - 1, 5))). The count is
-- at least 1 there.
unfoldable pub retry_delay : ℕ → ℕ
retry_delay retry_count = min 30000 (2000 * 2 ^ min (retry_count - 1) 5)

-- Math.min(this._reconnectDelay * Math.pow(2, this._reconnectAttempts - 1), 30000). The count is at
-- least 1 there.
unfoldable pub reconnect_wait : ℕ → ℕ → ℕ
reconnect_wait reconnect_delay attempts = min (reconnect_delay * 2 ^ (attempts - 1)) 30000
