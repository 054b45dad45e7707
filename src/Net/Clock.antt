-- ===== src/Net/Clock.antt =====
-- The clocks of the sessions: a reading counts nanoseconds, and a session reads its clocks in turn.
use libki.Common.{ℕ, suc, ◌-◌, ◌*◌, ◌/◌}
use libki.Io.{IoStream}
use libki.Dml.Bytes.{Reader, Try, done, raise}
use libki.Control.{ProtocolError}
use libki.Net.Session.{Session, close, invalid_message}

abbrev pub nanoseconds_per_second : ℕ
nanoseconds_per_second = 1000000000

abbrev pub nanoseconds_per_millisecond : ℕ
nanoseconds_per_millisecond = 1000000

abbrev pub nanoseconds_per_minute : ℕ
nanoseconds_per_minute = 60000000000

abbrev pub seconds : ℕ → ℕ
seconds t = t / nanoseconds_per_second

abbrev pub milliseconds : ℕ → ℕ
milliseconds t = t / nanoseconds_per_millisecond

-- The milliseconds of the current second, as the sessions work them out.
abbrev pub milliseconds_of_second : ℕ → ℕ
milliseconds_of_second t = milliseconds t - seconds t * 1000

-- A reading of a clock has been taken.
abbrev pub tick : Session → Session
tick s = record s { clock = suc s.clock }

abbrev pub handled :
    {A : Type 0} → (A → Session → Session) → Session → Try ProtocolError A × IoStream → Session
handled handle s (raise e, stream) = close invalid_message (record s { m_data_stream = stream })
handled handle s (done a, stream) = handle a (record s { m_data_stream = stream })

-- read_data, with the `catch` that every handler puts behind it.
abbrev pub read_data :
    {A : Type 0} → Reader ProtocolError A → (A → Session → Session) → Session → Session
read_data m handle s = handled handle s (m s.m_data_stream)
