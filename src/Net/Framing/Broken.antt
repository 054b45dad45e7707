-- ===== src/Net/Framing/Broken.antt =====
-- What process_data does when an earlier packet left `failbit` set on the data stream.
use libki.Common.{ℕ, ◌^◌, ◌≤◌, ◌<◌, ◌≡◌, ap, ◌∙◌, arith, List, true, length}
use libki.Io
use libki.Io.{IoStream, good}
use libki.Dml.Bytes.{raise}
use libki.Control.{invalid_header_data}
use libki.Net.Header
use libki.Net.Session.{
  Session, Handlers, finished, process_data, on_packet_available, dispatch, frame,
}
use libki.Net.Framing.Delivery.{IsBetweenFrames, filled, refilled, settled, process_data-frame}

-- A stream that has failed is not refilled, and stays failed.
refilled_failed :
    (payload : List ℕ) (stream : IoStream)
    → stream.fail ≡ true
    → (refilled payload stream).fail ≡ true
unfolding Io.write Io.rewind_get Io.rewind_put
refilled_failed payload stream f = ground arith

-- No header can be read from it.
read_from_failed :
    (stream : IoStream)
    → stream.fail ≡ true
    → Header.read_from stream ≡ (raise invalid_header_data, stream)
unfolding Header.read_from Io.get
read_from_failed stream f = ground arith

module _ (h : Handlers) where
  -- For a session between two frames whose data stream has failbit set, and a payload of at least
  -- one byte, fewer than 2 ^ 16 and no more than the maximum packet size: process_data on its
  -- frame finishes after one call of on_invalid_packet, whatever the payload holds, on a session
  -- whose data stream still has failbit set.
  pub process_data-failed :
      (payload : List ℕ) (s : Session)
      → IsBetweenFrames s
      → s.m_data_stream.fail ≡ true
      → 0 < length payload
      → length payload < 2 ^ 16
      → length payload ≤ s.m_maximum_packet_size
      → (s' : Session) × (process_data h (frame payload) s
          ≡ finished (settled (h.on_invalid_packet s')))
        × (s'.m_data_stream.fail ≡ true)
  unfolding on_packet_available
  process_data-failed payload s i f some small fits =
      let failed = refilled_failed payload s.m_data_stream f in
      (
        filled payload s,
        process_data-frame h s payload i some small fits
            ∙ ap (λ t. finished (settled (dispatch h (filled payload s) t)))
                (read_from_failed (refilled payload s.m_data_stream) failed),
        failed,
      )
