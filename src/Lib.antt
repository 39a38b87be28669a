-- ===== src/Lib.antt =====
-- multi_process_server: cars send live video and audio over JT/T 1078, and the server hands the
-- packets on to the processes that subscribe to a device.
--
-- The parts and how they interact:
--   * core/buffer (Buffer.antt): the byte buffer of every connection. `Buffer/Contents.antt` sees it
--     through its readable bytes, `Buffer/Push.antt` is `PushBuffer`, whose text both decoders share.
--   * jt1078/jt1078_server/Jt1078Header.h and Jt1078Packet.h (Jt1078/Header.antt): the packet of a car.
--   * jt1078/jt1078_server/Jt1078Decoder.cpp (Jt1078/Decoder.antt): `PushBuffer`, `Decode`,
--     `ParseHeaderStep1`, `ParseHeaderStep2` and `ParseBody`. The header parsers are written in the
--     monad of Jt1078/Scan.antt, whose steps read integers, write fields and check values.
--     Jt1078/Scan/ and Jt1078/Decoder/ hold what is known of the steps and of a call.
--   * jt1078/jt1078_server/CarSession.cpp (Jt1078/CarSession.antt): `ParseBuffer`, which pushes the
--     bytes of one read and decodes while packets are complete. Its callbacks are a list of events,
--     in order. `feed` is a connection on which several reads arrive.
--   * jt1078/jt1078_server/Jt1078Server.cpp and CarManager.cpp (Jt1078/Server.antt): the cars, their
--     device ids, and the notifications of the service, a list.
--   * core/ipc_packet (Ipc/Packet.antt, Ipc/Decoder.antt): the packets between the servers and their
--     decoder. Its `PushBuffer` is the one of Buffer/Push.antt. Ipc/Reader.antt is the loop over the
--     packets that have come in, which stands in four classes, and `feed` a connection on which several
--     reads arrive.
--   * core/tcp/TcpSession.cpp (Tcp.antt): `SendBuffer` and `SendPendingBuffer`. The kernel is the list
--     of its replies. Tcp/Stream.antt is about the bytes that were sent and are pending, Tcp/Sender.antt
--     the promise that both kinds of sessions keep, Tcp/Ids.antt about `GenerateSessionId`.
--   * core/pipe/PipeChannel.cpp (Pipe.antt): the packets in the pipes between processes.
--   * pc_server (Pc/Session.antt, Pc/Publisher.antt, Pc/Server.antt): `PcSession::SendPacket` and, in
--     Pc/Session/Reading.antt, `OnMessage`, the
--     channels of `PcPublisher`, and the handlers of `PcServer`. What it sends to the forward server is
--     the list `requests`; using the null `m_client` ends in `crashed`.
--   * jt1078/Jt1078Util.cpp (DeviceId.antt): device ids as text and numbers.
--   * jt1078/forward_server (Forward/Subscriber.antt, Forward/Publisher.antt, Forward/Server.antt):
--     `Subscriber::SendMsg`, the channels and their subscribers, and the handlers of `ForwardServer`,
--     whose requests to the service are a list. A session id stands for the shared object, which is
--     found in `objects`. `run` takes what happens to the server one after the other, as the event loop
--     does. Forward/Subscriber/Reading.antt is `Subscriber::OnMessage`.
--   * jt1078/Jt1078Service.cpp (Service.antt): the service, which joins the servers of the cars and the
--     forward servers, and the commands to the 808 server, a list. Service/Path.antt joins the parts, from
--     the connection of a car to the thread of the web server, and WebSocket/Path.antt to the sockets.
--   * jt1078_client/Jt1078Client.cpp (Jt1078Client.antt): the connection of the web server and of the PC
--     server to the forward server.
--   * core/database/RedisClient.cpp and RedisMqServer.cpp (Redis.antt): the queue of commands in Redis,
--     with the life of the context of hiredis, as the relation `Reach`.
--   * web_server/rtmp (Web/Rtmp/Stream.antt, Web/Rtmp/Client.antt, Web/Rtmp/Thread.antt): `CRtmpStream`,
--     which hands frames to ffmpeg, the parameter `Media`; `RtmpClient`, which puts the packets of a
--     car together and adds silence for a car without audio; and `RtmpThread::HandlerTask` with the
--     clients of `RtmpMgr`. `none` is an access outside the memory.
--   * web_server/audio (Web/Audio/G711.antt, Web/Audio/Codec.antt): the codes of G.711, and
--     `CCodec::DecodeAudio` into its buffer of 2048 bytes, the coders of ADPCM and G.726 being the
--     parameter `Coders`.
--   * web_server/http (Web/Http/Sessions.antt, Web/Http/Server.antt, Web/Http/Handlers.antt): the clients
--     of each stream and the set of devices, `WebServer`, and the handlers of the requests over HTTP. What
--     is sent to the forward server and given to the RTMP thread are lists; a request comes with what
--     nlohmann's library has made of its body.
--   * web_server/thread (Web/Thread/Worker.antt): the queue and the loop of a worker, as the relation
--     `Reach` of the states that two threads reach.
--   * new_web_server (WebSocket/Topics.antt, WebSocket/Server.antt): `CarTopicManager`, and the handlers
--     of `CarWebSocketServer`, whose requests to the forward server are a list. WebSocket/Client.antt is
--     `CarTcpClient` with its base classes and its timer, and CarWebServer.cpp, which joins the two.
-- Base.antt and its children hold lists over the native numbers and Boolean tests, and Tests.antt
-- the runs and examples.
--
-- How the code is read: a std::string is its bytes and its capacity, and how much the library
-- allocates is the parameter `Alloc`, of which only the standard's promise is assumed. Numbers are
-- natural numbers; a bit field is a number of its own. A failed assertion of the buffer, a write
-- outside an array and a use of freed memory are outcomes of the functions, so that a theorem has to
-- exclude them. The loop of `Decode` has fuel for its three steps and the loop of `ParseBuffer` fuel
-- for two rounds more than there are bytes to read; that both are enough is proved, `out_of_fuel`
-- and `unfinished` being outcomes like the others. Of ffmpeg nothing is assumed but, where a theorem
-- names it, the size of the frames of its encoder and that the converter takes every frame; and of the
-- ADPCM coder that it writes as many samples as it is asked for, where its index is in its table. The loop of `isIdrFrame1` runs over the positions of the data.
--
-- Not modelled: sockets, listeners, libevent, evhttp, asio, timers, MySQL, log and configuration, which
-- call system services and libraries only, the copies of other projects' code (3part, the ADPCM coder),
-- and the audio encoders and the groups of Redis, which nothing calls.
pub mod Base
pub mod Buffer
pub mod Jt1078
pub mod Ipc
pub mod Tcp
pub mod Pipe
pub mod Redis
pub mod Service
pub mod Jt1078Client
pub mod DeviceId
pub mod Pc
pub mod Forward
pub mod Web
pub mod WebSocket
mod Tests
